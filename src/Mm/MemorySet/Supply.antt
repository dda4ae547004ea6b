-- ===== src/Mm/MemorySet/Supply.antt =====
-- Enough free frames for what is to be allocated.
use rcore_os.Prelude.{
  ℕ, suc, ◌+◌, ◌≤◌, ◌≡◌, ◌≢◌, refl, true, false, not, ◌&&◌, List, [], ◌∷◌, ◌==◌, if◌then◌else◌, mem,
  Distinct, length, arith, Bool-cases, inl, inr,
}
use rcore_os.Mm.FrameAllocator.{StackFrameAllocator}
use rcore_os.Mm.FrameAllocator.Free.{is_free}

-- `k` frames at least are free.
pub record Supply (a : StackFrameAllocator) (k : ℕ) : Type 0 where
  pub frames : List ℕ
  pub distinct : Distinct frames
  pub free : (x : ℕ) → mem x frames ≡ true → is_free a x ≡ true
  pub enough : k ≤ length frames

-- A list without a number.
abbrev without : ℕ → List ℕ → List ℕ
without n [] = []
without n (x ∷ xs) = if x == n then xs else x ∷ without n xs

mem-without :
    (n : ℕ) (xs : List ℕ) (x : ℕ) → Distinct xs → mem x (without n xs) ≡ (mem x xs && not (n == x))
mem-without n [] x d = refl
mem-without n (y ∷ ys) x d = ground (arith, mem-without n ys x d.1, d.0)

Distinct-without : (n : ℕ) (xs : List ℕ) → Distinct xs → Distinct (without n xs)
Distinct-without n [] d = tt
Distinct-without n (x ∷ xs) d = elim (Bool-cases (x == n)) [
  | inl e ↦ rw e d.1
  | inr e ↦ rw e (ground (arith, mem-without n xs x d.1, d.0), Distinct-without n xs d.1)
]

length-without : (n : ℕ) (xs : List ℕ) → length xs ≤ length (without n xs) + 1
length-without n [] = omega arith
length-without n (x ∷ xs) = elim (Bool-cases (x == n)) [
  | inl e ↦ rw e (omega arith)
  | inr e ↦ rw e (omega (arith, length-without n xs))
]

-- After one frame has been taken.
pub Supply-less :
    (a b : StackFrameAllocator) (k n : ℕ)
    → Supply a (suc k)
    → ((x : ℕ) → is_free a x ≡ true → (n == x) ≡ false → is_free b x ≡ true)
    → Supply b k
Supply-less a b k n v after =
    let some = v.enough in
    record {
      frames = without n v.frames;
      distinct = Distinct-without n v.frames v.distinct;
      free = λ x h. ground (arith, mem-without n v.frames x v.distinct, v.free x, after x);
      enough = omega (arith, length-without n v.frames);
    }

-- Fewer frames are asked for.
pub Supply-le : (a : StackFrameAllocator) (k l : ℕ) → l ≤ k → Supply a k → Supply a l
Supply-le a k l h v =
    let some = v.enough in
    record { frames = v.frames; distinct = v.distinct; free = v.free; enough = omega arith }

first_frame :
    (a : StackFrameAllocator) (k : ℕ) (xs : List ℕ)
    → suc k ≤ length xs
    → ((x : ℕ) → mem x xs ≡ true → is_free a x ≡ true)
    → (x : ℕ) × (is_free a x ≡ true)
first_frame a k [] h f = absurd (omega arith)
first_frame a k (x ∷ xs) h f = (x, f x (ground arith))

pub Supply-first :
    (a : StackFrameAllocator) (k : ℕ) → Supply a (suc k) → (x : ℕ) × (is_free a x ≡ true)
Supply-first a k v = first_frame a k v.frames v.enough v.free

two_frames :
    (a : StackFrameAllocator) (k : ℕ) (xs : List ℕ)
    → suc (suc k) ≤ length xs
    → Distinct xs
    → ((x : ℕ) → mem x xs ≡ true → is_free a x ≡ true)
    → (x y : ℕ) × (is_free a x ≡ true) × (is_free a y ≡ true) × (x ≢ y)
two_frames a k [] h d f = absurd (omega arith)
two_frames a k (x ∷ []) h d f = absurd (omega arith)
two_frames a k (x ∷ y ∷ xs) h d f =
    (x, y, f x (ground arith), f y (ground arith), λ e. ground (arith, d.0))

pub Supply-two :
    (a : StackFrameAllocator) (k : ℕ)
    → Supply a (suc (suc k))
    → (x y : ℕ) × (is_free a x ≡ true) × (is_free a y ≡ true) × (x ≢ y)
Supply-two a k v = two_frames a k v.frames v.enough v.distinct v.free

-- What is left of a list without the numbers of another.
remaining :
    (ts xs : List ℕ)
    → Distinct xs
    → (ys : List ℕ) × Distinct ys
      × ((x : ℕ) → mem x ys ≡ true → (mem x xs ≡ true) × (mem x ts ≡ false))
      × (length xs ≤ length ys + length ts)
remaining [] xs d = (xs, d, λ x h. (h, refl), omega arith)
remaining (t ∷ ts) xs d =
    let (ys, e, from, long) = remaining ts (without t xs) (Distinct-without t xs d) in
    (
      ys,
      e,
      λ x h.
          let (a, b) = from x h in
          (ground (arith, mem-without t xs x d), ground (arith, mem-without t xs x d)),
      omega (arith, length-without t xs),
    )

-- After the frames of a list have been taken.
pub Supply-without :
    (a b : StackFrameAllocator) (taken : List ℕ) (k : ℕ)
    → Supply a (length taken + k)
    → ((x : ℕ) → is_free a x ≡ true → mem x taken ≡ false → is_free b x ≡ true)
    → Supply b k
Supply-without a b taken k v after =
    let (ys, e, from, long) = remaining taken v.frames v.distinct in
    let some = v.enough in
    record {
      frames = ys;
      distinct = e;
      free = λ x h. after x (v.free x (from x h).0) (from x h).1;
      enough = omega arith;
    }
