-- ===== src/Sync/Up/Masking.antt =====
-- Interrupts are masked as long as an access of a cell is open, and only so long.
use rcore_os.Prelude.{
  ℕ, ◌+◌, ◌^◌, ◌<◌, ◌≡◌, ◌==◌, refl, ◌∙◌, Bool, true, false, not, Outcome, returns, panics, arith,
  inl, inr, Bool-cases, ==_of_ne, sub_usize, subst, assert, ◌>>◌, if◌then◌else◌,
}
use rcore_os.Sync.Up.{Masks, new, enter, exit, set_borrowed, exclusive_access, drop_ref_mut}

-- The states that accesses and ends of accesses lead to from a start with `sie` as given, with the
-- number of the accesses that are open, of which there are never 2^64.
pub data Reach (sie : Bool) : Masks → ℕ → Type 0 where
  start : Reach sie (new sie) 0
  accesses :
      (c n : ℕ) (s s' : Masks)
      → Reach sie s n
      → n + 1 < 2 ^ 64
      → exclusive_access c s ≡ returns s'
      → Reach sie s' (n + 1)
  ends : (c n : ℕ) (s : Masks) → Reach sie s (n + 1) → Reach sie (drop_ref_mut c s) n

-- What holds of a state with `n` open accesses.
pub record IsMasked (sie : Bool) (s : Masks) (n : ℕ) : Type 0 where
  pub level : s.nested_level ≡ n
  pub small : n < 2 ^ 64
  pub masked : 0 < n → s.sie ≡ false
  pub before : 0 < n → s.sie_before_masking ≡ sie
  pub restored : n ≡ 0 → s.sie ≡ sie

enter-IsMasked :
    (sie : Bool) (s : Masks) (n : ℕ)
    → IsMasked sie s n
    → n + 1 < 2 ^ 64
    → IsMasked sie (enter s) (n + 1)
unfolding enter
enter-IsMasked sie s n v h =
    let level = v.level in
    record {
      level = omega arith;
      small = h;
      masked = λ k. refl;
      before = λ k. elim (Bool-cases (s.nested_level == 0)) [
        | inl e ↦ rw e (v.restored (ground arith))
        | inr e ↦ rw e (v.before (ground arith))
      ];
      restored = λ e. absurd (omega arith);
    }

restore : (b x sie : Bool) → b ≡ sie → x ≡ false → (if b then true else x) ≡ sie
restore true x sie e m = e
restore false x sie e m = m ∙ e

exit-IsMasked : (sie : Bool) (s : Masks) (n : ℕ) → IsMasked sie s (n + 1) → IsMasked sie (exit s) n
unfolding exit
exit-IsMasked sie s n v =
    let lower : sub_usize s.nested_level 1 ≡ n =
      let level = v.level in let small = v.small in omega arith in
    let small = v.small in
    record {
      level = lower;
      small = omega arith;
      masked = λ k. rw (lower, ==_of_ne n 0 (λ e. omega arith)) (v.masked (omega arith));
      before = λ k. v.before (omega arith);
      restored = λ e.
          rw (lower, e)
            (restore s.sie_before_masking s.sie sie (v.before (omega arith))
              (v.masked (omega arith)));
    }

abbrev OnReturn : (Masks → Type 0) → Outcome Masks → Type 0
OnReturn P (returns s) = P s
OnReturn P panics = Unit

OnReturn-assert :
    (P : Masks → Type 0) (b : Bool) (s : Masks) → P s → OnReturn P (assert b >> returns s)
OnReturn-assert P true s h = h
OnReturn-assert P false s h = tt

exclusive_access-OnReturn :
    (P : Masks → Type 0) (c : ℕ) (s : Masks)
    → P (set_borrowed c true (enter s))
    → OnReturn P (exclusive_access c s)
unfolding exclusive_access
exclusive_access-OnReturn P c s h =
    OnReturn-assert P (not ((enter s).borrowed c)) (set_borrowed c true (enter s)) h

entered-IsMasked :
    (sie : Bool) (c : ℕ) (s : Masks) (n : ℕ)
    → IsMasked sie s n
    → n + 1 < 2 ^ 64
    → IsMasked sie (set_borrowed c true (enter s)) (n + 1)
entered-IsMasked sie c s n v h =
    let w = enter-IsMasked sie s n v h in
    record {
      level = w.level;
      small = h;
      masked = w.masked;
      before = w.before;
      restored = w.restored;
    }

dropped-IsMasked :
    (sie : Bool) (c : ℕ) (s : Masks) (n : ℕ)
    → IsMasked sie s (n + 1)
    → IsMasked sie (drop_ref_mut c s) n
unfolding drop_ref_mut
dropped-IsMasked sie c s n v = exit-IsMasked sie (set_borrowed c false s) n (record {
  level = v.level;
  small = v.small;
  masked = v.masked;
  before = v.before;
  restored = v.restored;
})

new-IsMasked : (sie : Bool) → IsMasked sie (new sie) 0
unfolding new
new-IsMasked sie = record {
  level = refl;
  small = omega arith;
  masked = λ k. absurd (omega arith);
  before = λ k. absurd (omega arith);
  restored = λ e. refl;
}

-- In every state that accesses of cells and their ends lead to, interrupts are masked while an access
-- is open, and as they were at the start when none is; the level counts the accesses that are open.
pub Reach-IsMasked : (sie : Bool) {s : Masks} {n : ℕ} → Reach sie s n → IsMasked sie s n
Reach-IsMasked sie start = new-IsMasked sie
Reach-IsMasked sie (accesses c n s s' r h e) = subst (OnReturn (λ m. IsMasked sie m (n + 1))) e (
    exclusive_access-OnReturn (λ m. IsMasked sie m (n + 1)) c s
      (entered-IsMasked sie c s n (Reach-IsMasked sie r) h))
Reach-IsMasked sie (ends c n s r) = dropped-IsMasked sie c s n (Reach-IsMasked sie r)
