-- ===== src/Mm/PageTable/Tree.antt =====
-- The pages of a table form a tree of three levels, apart from the free frames.
use rcore_os.Prelude.{
  ℕ, ◌^◌, ◌<◌, ◌≡◌, ◌≢◌, refl, true, false, ◌&&◌, Option, none, some, if◌then◌else◌, ◌==◌, arith,
  ==_self, ==_of_ne,
}
use rcore_os.Mm.FrameAllocator.Free as Frames
use rcore_os.Mm.FrameAllocator.Free.{is_free, Allocates, exhausted, hands_out, alloc-Allocates}
use rcore_os.Mm.FrameAllocator.Trackers.{clean}
use rcore_os.Mm.PageTable.Entries.{pte_ppn-pte_new, is_valid_lem, pte_new-points}
use rcore_os.Mm.PageTable.{Memory, is_valid, pte_ppn, pte_new, flag_v}

-- What a page is to a table: nothing, its root, the table of its entry `i`, or the table of the entry
-- `j` of that one.
pub data Place : Type 0 where
  outside : Place
  root : Place
  middle : ℕ → Place
  last : ℕ → ℕ → Place

-- Where the entry `i` of a page in a place leads.
abbrev pub child : Place → ℕ → Place
child outside i = outside
child root i = middle i
child (middle i) j = last i j
child (last i j) k = outside

-- Where an entry leads, if it is valid.
abbrev pub link : (ℕ → ℕ → ℕ) → ℕ → ℕ → Option ℕ
link e p i = if is_valid (e p i) then some (pte_ppn (e p i)) else none

-- An entry of a last table, if it is valid.
abbrev pub leaf : (ℕ → ℕ → ℕ) → ℕ → ℕ → Option ℕ
leaf e p k = if is_valid (e p k) then some (e p k) else none

abbrev pub from_last : (ℕ → ℕ → ℕ) → ℕ → Option ℕ → Option ℕ
from_last e k none = none
from_last e k (some p) = leaf e p k

abbrev pub from_middle : (ℕ → ℕ → ℕ) → ℕ → ℕ → Option ℕ → Option ℕ
from_middle e j k none = none
from_middle e j k (some p) = from_last e k (link e p j)

-- The valid entry that the indexes lead to.
abbrev pub view : (ℕ → ℕ → ℕ) → ℕ → ℕ → ℕ → ℕ → Option ℕ
view e root_ppn i j k = from_middle e j k (link e root_ppn i)

-- The places of pages agree with the entries, and no page of the table is a free frame.
pub record IsTree (root_ppn : ℕ) (m : Memory) (place : ℕ → Place) : Type 0 where
  pub frames : Frames.IsValid m.allocator
  pub top : place root_ppn ≡ root
  pub down :
      (p i q : ℕ)
      → child (place p) i ≢ outside
      → link m.entries p i ≡ some q
      → place q ≡ child (place p) i
  pub used : (p : ℕ) → is_free m.allocator p ≡ true → place p ≡ outside

-- A page of the two upper levels.
abbrev pub IsUpper : Place → Type 0
IsUpper outside = ⊥
IsUpper root = Unit {0}
IsUpper (middle i) = Unit {0}
IsUpper (last i j) = ⊥

pub upper-child : (a : Place) (i : ℕ) → IsUpper a → child a i ≢ outside
upper-child outside i u e = elim u [ ]
upper-child root i u e = cc
upper-child (middle j) i u e = cc
upper-child (last j k) i u e = elim u [ ]

pub upper-inside : (a : Place) → IsUpper a → a ≢ outside
upper-inside outside u e = elim u [ ]
upper-inside root u e = cc
upper-inside (middle j) u e = cc
upper-inside (last j k) u e = elim u [ ]

-- The entries after the entry `i` of the page `p` was made to point to the zeroed page `q`.
abbrev pub linked : (ℕ → ℕ → ℕ) → ℕ → ℕ → ℕ → ℕ → ℕ → ℕ
linked e p i q x y = if (x == p) && (y == i) then pte_new q flag_v else clean q e x y

pub link-linked_other :
    (e : ℕ → ℕ → ℕ) (p i q x y : ℕ)
    → ((x == p) && (y == i)) ≡ false
    → x ≢ q
    → link (linked e p i q) x y ≡ link e x y
link-linked_other e p i q x y h n = rw (h, ==_of_ne x q n) refl

pub leaf-linked_other :
    (e : ℕ → ℕ → ℕ) (p i q x y : ℕ)
    → ((x == p) && (y == i)) ≡ false
    → x ≢ q
    → leaf (linked e p i q) x y ≡ leaf e x y
leaf-linked_other e p i q x y h n = rw (h, ==_of_ne x q n) refl

pub link-linked_self :
    (e : ℕ → ℕ → ℕ) (p i q x y : ℕ)
    → q < 2 ^ 44
    → ((x == p) && (y == i)) ≡ true
    → link (linked e p i q) x y ≡ some q
link-linked_self e p i q x y h t =
    rw (t, pte_new-points q h, (pte_ppn-pte_new q 1 h (omega arith)).0) refl

-- The new page has no valid entry.
pub link-linked_new :
    (e : ℕ → ℕ → ℕ) (p i q y : ℕ)
    → q ≢ p
    → (link (linked e p i q) q y ≡ none) × (leaf (linked e p i q) q y ≡ none)
link-linked_new e p i q y n = (
  rw (==_of_ne q p n, ==_self q, is_valid_lem 0) refl,
  rw (==_of_ne q p n, ==_self q, is_valid_lem 0) refl,
)
