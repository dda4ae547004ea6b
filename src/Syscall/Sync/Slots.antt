-- ===== src/Syscall/Sync/Slots.antt =====
-- Tables of objects by number.
use rcore_os.Prelude.{
  ℕ, zero, suc, ◌<◌, ◌≡◌, ◌≢◌, refl, ap, List, [], ◌∷◌, Option, none, some, arith, length,
}
use rcore_os.Syscall.Sync.{get_slot, add_slot, alloc_fd}

-- What putting an object into a table has to deliver, in terms of what the ids stand for.
pub record Adds {ℓ} {A : Type ℓ} (vs : List (Option A)) (x : A) (id : ℕ) (vs' : List (Option A))
    : Type ℓ where
  pub new_one : get_slot vs' id ≡ some x
  pub was_free : get_slot vs id ≡ none
  pub others : (j : ℕ) → j ≢ id → get_slot vs' j ≡ get_slot vs j
  pub first : (j : ℕ) → j < id → get_slot vs j ≢ none

add_slot_others {ℓ} :
    {A : Type ℓ}
    → (vs : List (Option A)) (x : A) (j : ℕ) → j ≢ (add_slot vs x).0
    → get_slot (add_slot vs x).1 j ≡ get_slot vs j
unfolding add_slot get_slot
add_slot_others [] x zero n = absurd (n refl)
add_slot_others [] x (suc j) n = refl
add_slot_others (none ∷ vs) x zero n = absurd (n refl)
add_slot_others (none ∷ vs) x (suc j) n = refl
add_slot_others (some v ∷ vs) x zero n = refl
add_slot_others (some v ∷ vs) x (suc j) n = add_slot_others vs x j (λ e. n (ap suc e))

add_slot_first {ℓ} :
    {A : Type ℓ}
    → (vs : List (Option A)) (x : A) (j : ℕ) → j < (add_slot vs x).0
    → get_slot vs j ≢ none
unfolding add_slot get_slot
add_slot_first [] x j h e = omega arith
add_slot_first (none ∷ vs) x j h e = omega arith
add_slot_first (some v ∷ vs) x zero h e = cc
add_slot_first (some v ∷ vs) x (suc j) h e = add_slot_first vs x j (omega arith) e

add_slot_there {ℓ} :
    {A : Type ℓ}
    → (vs : List (Option A)) (x : A)
    → (get_slot (add_slot vs x).1 (add_slot vs x).0 ≡ some x)
      × (get_slot vs (add_slot vs x).0 ≡ none)
unfolding add_slot get_slot
add_slot_there [] x = (refl, refl)
add_slot_there (none ∷ vs) x = (refl, refl)
add_slot_there (some v ∷ vs) x = add_slot_there vs x

pub add_slot-Adds {ℓ} :
    {A : Type ℓ} → (vs : List (Option A)) (x : A) → Adds vs x (add_slot vs x).0 (add_slot vs x).1
add_slot-Adds vs x = record {
  new_one = (add_slot_there vs x).0;
  was_free = (add_slot_there vs x).1;
  others = add_slot_others vs x;
  first = add_slot_first vs x;
}

alloc_fd_free {ℓ} :
    {A : Type ℓ}
    → (vs : List (Option A))
    → (get_slot (alloc_fd vs).1 (alloc_fd vs).0 ≡ none) × ((alloc_fd vs).0 < length (alloc_fd vs).1)
unfolding alloc_fd get_slot
alloc_fd_free [] = (refl, omega arith)
alloc_fd_free (none ∷ vs) = (refl, omega arith)
alloc_fd_free (some v ∷ vs) = let (a, b) = alloc_fd_free vs in (a, omega arith)
