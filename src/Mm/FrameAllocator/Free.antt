-- ===== src/Mm/FrameAllocator/Free.antt =====
-- What each call of the frame allocator does to the set of free frames.
use rcore_os.Prelude.{
  ℕ, zero, suc, ◌+◌, ◌-◌, ◌^◌, ◌≤◌, ◌<◌, ◌≡◌, refl, Bool, true, false, ◌||◌, ◌&&◌, not, List, [],
  ◌∷◌, Option, none, some, ltb, leb, ◌==◌, mem, All, Distinct, Outcome, returns, panics, arith, sym,
  subst, add_usize, sub_usize, length, ap, lt→leb_false, inl, inr, Bool-cases,
}
use rcore_os.Mm.Address.{to_phys_page_num}
use rcore_os.Mm.Address.Conversions.{to_phys_page_num_small}
use rcore_os.Mm.FrameAllocator.{
  StackFrameAllocator, new, init, alloc, alloc_more, dealloc, alloc_from, alloc_fresh,
  below_current,
}

-- A frame is free if it is recycled or has never been handed out.
abbrev pub is_free : StackFrameAllocator → ℕ → Bool
is_free a n = mem n a.recycled || (leb a.current n && ltb n a.end)

-- Recycled frames lie below `current`, none twice, and every number is a 44-bit page number.
pub record IsValid (a : StackFrameAllocator) : Type 0 where
  pub within : a.current ≤ a.end
  pub small : a.end ≤ 2 ^ 44
  pub below : All (λ n. n < a.current) a.recycled
  pub distinct : Distinct a.recycled

pub mem-below : (xs : List ℕ) (n c : ℕ) → All (λ x. x < c) xs → c ≤ n → mem n xs ≡ false
mem-below [] n c h le = refl
mem-below (x ∷ xs) n c h le = ground (arith, mem-below xs n c h.1)

pub below_mono : (xs : List ℕ) (c d : ℕ) → c ≤ d → All (λ x. x < c) xs → All (λ x. x < d) xs
below_mono [] c d le h = tt
below_mono (x ∷ xs) c d le h = (omega arith, below_mono xs c d le h.1)

pub init-IsValid : (l r : ℕ) → l ≤ r → r ≤ 2 ^ 44 → IsValid (init new l r)
unfolding init new
init-IsValid l r h k = record { within = h; small = k; below = tt; distinct = tt }

-- What one allocation may do to a valid allocator: fail because nothing is free, or hand out a
-- frame that was free, after which exactly that frame is free no longer.
pub data Allocates (a : StackFrameAllocator) : Option ℕ × StackFrameAllocator → Type 0 where
  exhausted : ((m : ℕ) → is_free a m ≡ false) → Allocates a (none, a)
  hands_out :
      (n : ℕ) (b : StackFrameAllocator)
      → is_free a n ≡ true
      → ((m : ℕ) → is_free b m ≡ (is_free a m && not (n == m)))
      → IsValid b
      → b.end ≡ a.end
      → Allocates a (some n, b)

fresh-IsValid :
    (a : StackFrameAllocator)
    → a.recycled ≡ []
    → a.current < a.end
    → IsValid a
    → IsValid (record a { current = add_usize a.current 1 })
fresh-IsValid a e h v = record {
  within = omega arith;
  small = v.small;
  below = subst (All (λ n. n < add_usize a.current 1)) (sym e) tt;
  distinct = v.distinct;
}

fresh-Allocates :
    (a : StackFrameAllocator) → a.recycled ≡ [] → IsValid a → Allocates a (alloc_fresh a)
unfolding alloc_fresh
fresh-Allocates a e v = elim (Bool-cases (a.current == a.end)) [
  | inl out ↦ rw (out, alloc_fresh) (exhausted (λ m. ground arith))
  | inr more ↦
      rw (more, alloc_fresh, to_phys_page_num_small a.current (ground arith))
        (hands_out _ _ (ground arith) (λ m. ground arith) (fresh-IsValid a e (ground arith) v) refl)
]

-- The recycled frame on top of the stack.
recycled-Allocates :
    (a : StackFrameAllocator) (x : ℕ) (xs : List ℕ)
    → a.recycled ≡ x ∷ xs
    → IsValid a
    → Allocates a (some (to_phys_page_num x), record a { recycled = xs })
recycled-Allocates a x xs e v =
    let b : All (λ n. n < a.current) (x ∷ xs) = subst (All (λ n. n < a.current)) e v.below in
    let d : Distinct (x ∷ xs) = subst Distinct e v.distinct in
    rw (to_phys_page_num_small x (omega arith)) (
      hands_out x _ (ground arith) (λ m. ground arith)
        (record { within = v.within; small = v.small; below = b.1; distinct = d.1 }) refl)

alloc_from-Allocates :
    (a : StackFrameAllocator) (xs : List ℕ)
    → a.recycled ≡ xs
    → IsValid a
    → Allocates a (alloc_from xs a)
unfolding alloc_from
alloc_from-Allocates a [] e v = fresh-Allocates a e v
alloc_from-Allocates a (x ∷ xs) e v = recycled-Allocates a x xs e v

-- On a valid allocator `alloc` fails exactly when no frame is free; otherwise it hands out a frame
-- that was free, after which the free frames are the old ones without it, and stays valid.
pub alloc-Allocates : (a : StackFrameAllocator) → IsValid a → Allocates a (alloc a)
unfolding alloc
alloc-Allocates a v = alloc_from-Allocates a a.recycled refl v

-- What giving back the frame `n` has to deliver.
abbrev pub Frees : StackFrameAllocator → ℕ → Outcome StackFrameAllocator → Type 0
Frees a n o =
    (b : StackFrameAllocator) × (o ≡ returns b)
    × ((m : ℕ) → is_free b m ≡ (is_free a m || (n == m)))
    × IsValid b
    × (b.end ≡ a.end)

-- `dealloc` of a frame that is handed out does not panic, frees exactly that frame and keeps the
-- allocator valid; `dealloc` of a free frame, or of one past the end, panics.
pub dealloc-Frees :
    (a : StackFrameAllocator) (n : ℕ)
    → IsValid a
    → (is_free a n ≡ false → n < a.end → Frees a n (dealloc a n))
      × (is_free a n ≡ true → dealloc a n ≡ panics)
      × (a.end ≤ n → dealloc a n ≡ panics)
unfolding dealloc
dealloc-Frees a n v = (
  λ used h. (
    record a { recycled = n ∷ a.recycled },
    ground arith,
    λ m. ground arith,
    record {
      within = v.within;
      small = v.small;
      below = (ground arith, v.below);
      distinct = (ground arith, v.distinct);
    },
    refl,
  ),
  λ free. ground arith,
  λ h. ground arith,
)

mem-below_current :
    (c i n m : ℕ)
    → 0 < i
    → i + n ≤ c + 1
    → c < 2 ^ 44
    → mem m (below_current c i n) ≡ (leb (c + 1) (m + i + n) && leb (m + i) c)
unfolding below_current
mem-below_current c i zero m p q s = ground arith
mem-below_current c i (suc n) m p q s =
    let small : sub_usize c i ≡ c - i = omega arith in
    rw
      (
        small,
        to_phys_page_num_small (c - i) (omega arith),
        mem-below_current c (i + 1) n m (omega arith) (omega arith) s,
      )
      (ground arith)

length-below_current : (c i n : ℕ) → length (below_current c i n) ≡ n
unfolding below_current
length-below_current c i zero = refl
length-below_current c i (suc n) = ap suc (length-below_current c (i + 1) n)

Distinct-below_current :
    (c i n : ℕ) → 0 < i → i + n ≤ c + 1 → c < 2 ^ 44 → Distinct (below_current c i n)
unfolding below_current
Distinct-below_current c i zero p q s = tt
Distinct-below_current c i (suc n) p q s =
    let small : sub_usize c i ≡ c - i = omega arith in
    rw (small, to_phys_page_num_small (c - i) (omega arith))
      (
        rw (mem-below_current c (i + 1) n (c - i) (omega arith) (omega arith) s) (ground arith),
        Distinct-below_current c (i + 1) n (omega arith) (omega arith) s,
      )

-- What taking `pages` frames at once has to deliver.
abbrev pub TakesFrames : StackFrameAllocator → ℕ → Option (List ℕ) × StackFrameAllocator → Type 0
TakesFrames a pages o =
    (frames : List ℕ) × (b : StackFrameAllocator) × (o ≡ (some frames, b))
    × (length frames ≡ pages)
    × Distinct frames
    × ((m : ℕ) → mem m frames ≡ true → is_free a m ≡ true)
    × ((m : ℕ) → is_free b m ≡ (is_free a m && not (mem m frames)))
    × IsValid b
    × (b.end ≡ a.end)

-- On a valid allocator `alloc_more` (for a count at which `current + pages` does not wrap) fails,
-- and changes nothing, exactly when `end ≤ current + pages`; otherwise it returns `pages` distinct
-- frames that were free, after which the free frames are the old ones without them, and the
-- allocator stays valid.
pub alloc_more-Allocates :
    (a : StackFrameAllocator) (pages : ℕ)
    → IsValid a
    → a.current + pages < 2 ^ 64 - 1
    → (a.end ≤ a.current + pages → alloc_more a pages ≡ (none, a))
      × (a.current + pages < a.end → TakesFrames a pages (alloc_more a pages))
unfolding alloc_more
alloc_more-Allocates a pages v h = (
  λ full. ground arith,
  λ room.
      let c : add_usize a.current pages ≡ a.current + pages = omega arith in
      let n : add_usize pages 1 - 1 ≡ pages = omega arith in
      (
        below_current (a.current + pages) 1 pages,
        record a { current = a.current + pages },
        rw (c, n, lt→leb_false a.end (a.current + pages) room) refl,
        length-below_current (a.current + pages) 1 pages,
        Distinct-below_current (a.current + pages) 1 pages (omega arith) (omega arith)
            (omega arith),
        λ m. ground (arith, mem-below_current (a.current + pages) 1 pages m),
        λ m. ground (
          arith,
          mem-below_current (a.current + pages) 1 pages m,
          mem-below a.recycled m a.current v.below,
        ),
        record {
          within = omega arith;
          small = v.small;
          below = below_mono a.recycled a.current (a.current + pages) (omega arith) v.below;
          distinct = v.distinct;
        },
        refl,
      ),
)
