-- ===== src/Task/Id/InUse.antt =====
-- Which numbers an allocator has given out, over every history of its use.
use rcore_os.Prelude.{
  ℕ, ◌+◌, ◌-◌, ◌^◌, ◌≤◌, ◌<◌, ◌≡◌, refl, subst, Bool, true, false, not, ◌&&◌, ◌||◌, List, [], ◌∷◌,
  ltb, ◌==◌, mem, add_usize, All, Distinct, Outcome, returns, panics, arith,
}
use rcore_os.Task.Id.{RecycleAllocator, alloc, alloc_from, dealloc}

abbrev pub in_use : RecycleAllocator → ℕ → Bool
in_use a n = ltb n a.current && not (mem n a.recycled)

pub record IsValid (a : RecycleAllocator) : Type 0 where
  pub below : All (λ n. n < a.current) a.recycled
  pub distinct : Distinct a.recycled

mem-lt : (xs : List ℕ) (c n : ℕ) → All (λ x. x < c) xs → mem n xs ≡ true → n < c
mem-lt [] c n h m = absurd (ground arith)
mem-lt (x ∷ xs) c n h m = ground (arith, mem-lt xs c n h.1)

below_mono : (xs : List ℕ) (c d : ℕ) → c ≤ d → All (λ x. x < c) xs → All (λ x. x < d) xs
below_mono [] c d le h = tt
below_mono (x ∷ xs) c d le h = (omega arith, below_mono xs c d le h.1)

abbrev pub GivesOut : RecycleAllocator → ℕ × RecycleAllocator → Type 0
GivesOut a r =
    (in_use a r.0 ≡ false)
    × ((m : ℕ) → in_use r.1 m ≡ (in_use a m || (r.0 == m)))
    × IsValid r.1
    × (r.1.current ≤ a.current + 1)

alloc_from-GivesOut :
    (a : RecycleAllocator) (xs : List ℕ)
    → a.recycled ≡ xs
    → IsValid a
    → a.current < 2 ^ 64 - 1
    → GivesOut a (alloc_from xs a)
unfolding alloc_from
alloc_from-GivesOut a [] e v h = (
  ground arith,
  λ m. ground (arith, mem-lt a.recycled a.current m v.below),
  record {
    below = below_mono a.recycled a.current (add_usize a.current 1) (omega arith) v.below;
    distinct = v.distinct;
  },
  omega arith,
)
alloc_from-GivesOut a (x ∷ xs) e v h =
    let b : All (λ n. n < a.current) (x ∷ xs) = subst (All (λ n. n < a.current)) e v.below in
    let d : Distinct (x ∷ xs) = subst Distinct e v.distinct in
    (ground arith, λ m. ground arith, record { below = b.1; distinct = d.1 }, omega arith)

-- On a valid allocator that has not run through 2^64 numbers, `alloc` gives out a number that was
-- not in use; afterwards the numbers in use are the old ones and that one, and it is still valid.
pub alloc-GivesOut :
    (a : RecycleAllocator) → IsValid a → a.current < 2 ^ 64 - 1 → GivesOut a (alloc a)
unfolding alloc
alloc-GivesOut a v h = alloc_from-GivesOut a a.recycled refl v h

-- What ending the use of `n` has to deliver.
abbrev pub EndsUse : RecycleAllocator → ℕ → Outcome RecycleAllocator → Type 0
EndsUse a n o =
    (b : RecycleAllocator) × (o ≡ returns b)
    × ((m : ℕ) → in_use b m ≡ (in_use a m && not (n == m)))
    × IsValid b
    × (b.current ≡ a.current)

-- `dealloc` panics exactly on a number that is not in use; of one in use it ends the use, of no
-- other, and the allocator stays valid.
pub dealloc-EndsUse :
    (a : RecycleAllocator) (n : ℕ)
    → IsValid a
    → (in_use a n ≡ false → dealloc a n ≡ panics) × (in_use a n ≡ true → EndsUse a n (dealloc a n))
unfolding dealloc
dealloc-EndsUse a n v = (
  λ free. ground arith,
  λ used. (
    record a { recycled = n ∷ a.recycled },
    ground arith,
    λ m. ground arith,
    record { below = (ground arith, v.below); distinct = (ground arith, v.distinct) },
    refl,
  ),
)
