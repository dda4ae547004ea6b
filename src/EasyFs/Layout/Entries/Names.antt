-- ===== src/EasyFs/Layout/Entries/Names.antt =====
-- The name and the number of an entry through its bytes.
use rcore_os.Prelude.{
  ℕ, suc, ◌-◌, ◌/◌, ◌%◌, ◌^◌, ◌≤◌, ◌<◌, ◌≡◌, refl, ap, Bool, true, List, [], ◌∷◌, ◌++◌, some,
  returns, length, replicate, All, arith, le→leb, ==_of_ne, length-append, length-replicate,
  take-append, drop-append,
}
use rcore_os.EasyFs.Layout.Entries.{DirEntry, new, as_bytes, of_bytes, position_zero, name_of}

-- A byte that may stand in a name.
abbrev pub IsLetter : ℕ → Type 0
IsLetter b = (0 < b) × (b < 256)

-- A name that an entry can hold.
pub record IsName (is_utf8 : List ℕ → Bool) (s : List ℕ) : Type 0 where
  pub short : length s ≤ 27
  pub letters : All IsLetter s
  pub utf8 : is_utf8 s ≡ true

abbrev numbered : List ℕ → ℕ → DirEntry
numbered name n = record { name = name; inode_number = n }

-- The entry of a name.
abbrev pub entry : List ℕ → ℕ → DirEntry
entry s n = record { name = s ++ replicate (28 - length s) 0; inode_number = n }

pub new-entry : (s : List ℕ) (n : ℕ) → length s ≤ 27 → new s n ≡ returns (entry s n)
unfolding new
new-entry s n h = rw (le→leb (length s) 27 h) refl

position_zero-padded :
    (s : List ℕ) (k : ℕ)
    → All IsLetter s
    → position_zero (s ++ replicate (suc k) 0) ≡ some (length s)
position_zero-padded [] k h = refl
position_zero-padded (b ∷ s) k h =
    rw (==_of_ne b 0 (λ e. let pos = h.0.0 in omega arith), position_zero-padded s k h.1) refl

pub name_of-entry :
    (is_utf8 : List ℕ → Bool) (s : List ℕ) (n : ℕ)
    → IsName is_utf8 s
    → name_of is_utf8 (entry s n) ≡ returns s
unfolding name_of
name_of-entry is_utf8 s n v =
    let short = v.short in
    let pad : 28 - length s ≡ suc (27 - length s) = omega arith in
    rw
      (
        pad,
        position_zero-padded s (27 - length s) v.letters,
        take-append s (replicate (suc (27 - length s)) 0) (length s) refl,
        v.utf8,
      )
      refl

length-name : (s : List ℕ) → length s ≤ 27 → length (s ++ replicate (28 - length s) 0) ≡ 28
length-name s h = omega (
  arith,
  length-append s (replicate (28 - length s) 0),
  length-replicate {A = ℕ} (28 - length s) 0,
)

pub of_bytes-as_bytes :
    (s : List ℕ) (n : ℕ) → length s ≤ 27 → n < 2 ^ 32 → of_bytes (as_bytes (entry s n)) ≡ entry s n
unfolding of_bytes as_bytes
of_bytes-as_bytes s n h small =
    let name = s ++ replicate (28 - length s) 0 in
    let rest = n % 256 ∷ n / 256 % 256 ∷ n / 256 / 256 % 256 ∷ n / 256 / 256 / 256 % 256 ∷ [] in
    rw (take-append name rest 28 (length-name s h), drop-append name rest 28 (length-name s h))
      (ap (numbered name) (omega arith))

pub length-as_bytes : (s : List ℕ) (n : ℕ) → length s ≤ 27 → length (as_bytes (entry s n)) ≡ 32
unfolding as_bytes
length-as_bytes s n h =
    rw
      (
        length-append (s ++ replicate (28 - length s) 0)
            (n % 256 ∷ n / 256 % 256 ∷ n / 256 / 256 % 256 ∷ n / 256 / 256 / 256 % 256 ∷ []),
        length-name s h,
      )
      refl
