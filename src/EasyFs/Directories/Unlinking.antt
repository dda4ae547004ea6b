-- ===== src/EasyFs/Directories/Unlinking.antt =====
-- Taking a name out of a directory.
use rcore_os.Prelude.{
  ℕ, ◌+◌, ◌*◌, ◌≤◌, ◌<◌, ◌≡◌, ◌≢◌, refl, ap, sym, ◌∙◌, subst, Bool, Bool-cases, inl, inr, List, [],
  ◌∷◌, ◌++◌, Option, none, some, if◌then◌else◌, Outcome, returns, length, set, arith, length-append,
}
use rcore_os.EasyFs.Disk.{Disk}
use rcore_os.EasyFs.Layout.{DiskInode}
use rcore_os.EasyFs.Layout.Io.Blocks.{Separate, block_of}
use rcore_os.EasyFs.Layout.Entries.Names.{name_of-entry}
use rcore_os.EasyFs.Directories.{same_name, position_of, unlink_found, unlink_entry}
use rcore_os.EasyFs.Directories.Lookup.{
  Named, HoldsFrom, Holds, read_dirent-entry, file_count_lem, kind-is_dir,
}
use rcore_os.EasyFs.Directories.Removal.{remove_entry-Removes}

-- The index of the first entry with a name, counted from `i`, and its number.
abbrev pub find_at : List ℕ → Named → ℕ → Option (ℕ × ℕ)
find_at name [] i = none
find_at name (e ∷ es) i = if same_name e.0 name then some (i, e.1) else find_at name es (i + 1)

abbrev pub all_but_last : Named → Named
all_but_last [] = []
all_but_last (e ∷ []) = []
all_but_last (e ∷ f ∷ es) = e ∷ all_but_last (f ∷ es)

abbrev pub last_or : List ℕ × ℕ → Named → List ℕ × ℕ
last_or e [] = e
last_or e (f ∷ es) = last_or f es

-- The entries with the last one in the place of the entry `i`, if that is another one.
abbrev pub shrink : ℕ → Named → Named
shrink i es = set (all_but_last es) i (last_or ([], 0) es)

all_but_last-append :
    (e f : List ℕ × ℕ) (es : Named) → all_but_last (e ∷ es) ++ (last_or f (e ∷ es) ∷ []) ≡ e ∷ es
all_but_last-append e f [] = refl
all_but_last-append e f (g ∷ es) = ap (λ xs. e ∷ xs) (all_but_last-append g e es)

position_of-find_at :
    (is_utf8 : List ℕ → Bool) (inode : DiskInode) (d : Disk) (name : List ℕ) (es : Named) (i : ℕ)
    → inode.size ≤ 16538 * 512
    → (i + length es) * 32 ≤ inode.size
    → HoldsFrom is_utf8 inode d i es
    → position_of is_utf8 (length es) inode d name i ≡ returns (find_at name es i)
unfolding position_of
position_of-find_at is_utf8 inode d name [] i small inside h = refl
position_of-find_at is_utf8 inode d name (e ∷ es) i small inside h =
    let (bytes, v, bound) = h.0 in
    let later = position_of-find_at is_utf8 inode d name es (i + 1) small (omega arith) h.1 in
    rw
      (
        read_dirent-entry is_utf8 inode d i e.0 e.1 small (omega arith) bytes v bound,
        name_of-entry is_utf8 e.0 e.1 v,
        later,
      )
      (ground arith)

-- What unlinking has to deliver where the search gave `at`.
abbrev pub Unlinked :
    (List ℕ → Bool)
    → DiskInode
    → ℕ
    → Disk
    → Named
    → Outcome (Option ℕ × DiskInode × Disk)
    → Option (ℕ × ℕ)
    → Type 0
Unlinked is_utf8 inode n d es o none = o ≡ returns (none, inode, d)
Unlinked is_utf8 inode n d es o (some at) =
    (size : ℕ) × (d' : Disk) × (o ≡ returns (some at.1, record inode { size = size }, d'))
    × Holds is_utf8 (record inode { size = size }) d' (shrink at.0 es)
    × Separate inode d' n
    × ((b : ℕ) → ((k : ℕ) → k < n → block_of inode d k ≢ b) → d' b ≡ d b)

-- The index that the search gives is one of the list.
IsWithin : ℕ → Option (ℕ × ℕ) → Type 0
IsWithin n none = Unit
IsWithin n (some at) = at.0 < n

find_at-IsWithin :
    (name : List ℕ) (es : Named) (i n : ℕ) → i + length es ≤ n → IsWithin n (find_at name es i)
unfolding IsWithin
find_at-IsWithin name [] i n h = tt
find_at-IsWithin name (e ∷ es) i n h = elim (Bool-cases (same_name e.0 name)) [
  | inl found ↦ rw found (omega arith)
  | inr other ↦ rw other (find_at-IsWithin name es (i + 1) n (omega arith))
]

unlink_found-Unlinked :
    (is_utf8 : List ℕ → Bool) (inode : DiskInode) (n : ℕ) (d : Disk) (es : Named)
    (at : Option (ℕ × ℕ))
    → Holds is_utf8 inode d es
    → Separate inode d n
    → inode.size ≤ n * 512
    → IsWithin (length es) at
    → Unlinked is_utf8 inode n d es (unlink_found inode d at) at
unfolding unlink_found IsWithin
unlink_found-Unlinked is_utf8 inode n d es none h v room inside = refl
unlink_found-Unlinked is_utf8 inode n d [] (some at) h v room inside = absurd (omega arith)
unlink_found-Unlinked is_utf8 inode n d (e ∷ es) (some at) h v room inside =
    let front = all_but_last (e ∷ es) in
    let z = last_or ([], 0) (e ∷ es) in
    let parts = all_but_last-append e ([], 0) es in
    let size = ap length parts in
    let (size', d', r, holds, separate, others) =
      remove_entry-Removes is_utf8 inode n d front z at.0
        (subst (Holds is_utf8 inode d) (sym parts) h) v room
        (omega (arith, length-append front (z ∷ []))) in
    (size', d', rw r refl, holds, separate, others)

-- The first part of `unlink` of a name in a directory with separate blocks does not panic. Where no
-- entry has the name, nothing changes. Otherwise it gives the inode number of the first entry with the
-- name, the directory then holds the entries with the last one in the place of that entry, and no
-- block but its data blocks has changed.
pub unlink_entry-Unlinked :
    (is_utf8 : List ℕ → Bool) (inode : DiskInode) (n : ℕ) (d : Disk) (es : Named) (name : List ℕ)
    → Holds is_utf8 inode d es
    → Separate inode d n
    → inode.size ≤ n * 512
    → Unlinked is_utf8 inode n d es (unlink_entry is_utf8 inode d name) (find_at name es 0)
unfolding unlink_entry
unlink_entry-Unlinked is_utf8 inode n d es name h v room =
    let size = h.size in
    let found =
      ap (λ k. position_of is_utf8 k inode d name 0) (file_count_lem inode (length es) size)
      ∙ position_of-find_at is_utf8 inode d name es 0 h.reachable (omega arith) h.entries in
    rw (kind-is_dir inode h.is_directory, found)
      (unlink_found-Unlinked is_utf8 inode n d es (find_at name es 0) h v room
        (find_at-IsWithin name es 0 (length es) (omega arith)))
