-- ===== src/EasyFs/Directories/Links.antt =====
-- Unlinking a name, with the links of the inode it stood for.
use rcore_os.Prelude.{
  ℕ, zero, suc, ◌+◌, ◌*◌, ◌-◌, ◌^◌, ◌≤◌, ◌<◌, ◌≡◌, ◌≢◌, refl, ap, sym, ◌∙◌, subst, Bool, Bool-cases,
  true, false, inl, inr, List, [], ◌∷◌, Option, none, some, ◌==◌, ==_self, ==_of_ne, Outcome,
  returns, ◌>>=◌, arith, ap₂,
}
use rcore_os.EasyFs.Disk.{Disk}
use rcore_os.EasyFs.Efs.{EasyFileSystem}
use rcore_os.EasyFs.Layout.{DiskInode, sub_u32}
use rcore_os.EasyFs.Layout.Io.Blocks.{Separate, block_of, file_byte, file_bytes}
use rcore_os.EasyFs.Directories.{
  Inodes, put, clear_locked, drop_link, unlink_target, unlink, unlink_entry,
}
use rcore_os.EasyFs.Directories.Lookup.{Named, HoldsFrom, Holds}
use rcore_os.EasyFs.Directories.Unlinking.{find_at, shrink, Unlinked, unlink_entry-Unlinked}

-- The inode with another number of links.
abbrev relinked : DiskInode → ℕ → DiskInode
relinked inode k = record inode { nlink = k }

file_bytes-relinked :
    (inode : DiskInode) (k : ℕ) (d : Disk) (p n : ℕ)
    → file_bytes (relinked inode k) d p n ≡ file_bytes inode d p n
file_bytes-relinked inode k d p zero = refl
file_bytes-relinked inode k d p (suc n) =
    ap (λ xs. file_byte inode d p ∷ xs) (file_bytes-relinked inode k d (p + 1) n)

HoldsFrom-relinked :
    (is_utf8 : List ℕ → Bool) (inode : DiskInode) (k : ℕ) (d : Disk) (i : ℕ) (es : Named)
    → HoldsFrom is_utf8 inode d i es
    → HoldsFrom is_utf8 (relinked inode k) d i es
HoldsFrom-relinked is_utf8 inode k d i [] h = tt
HoldsFrom-relinked is_utf8 inode k d i (e ∷ es) h =
    let (bytes, v, bound) = h.0 in
    (
      (file_bytes-relinked inode k d (i * 32) 32 ∙ bytes, v, bound),
      HoldsFrom-relinked is_utf8 inode k d (i + 1) es h.1,
    )

-- What a directory holds does not depend on the number of links to it.
Holds-relinked :
    (is_utf8 : List ℕ → Bool) (inode : DiskInode) (k : ℕ) (d : Disk) (es : Named)
    → Holds is_utf8 inode d es
    → Holds is_utf8 (relinked inode k) d es
Holds-relinked is_utf8 inode k d es h = record {
  is_directory = h.is_directory;
  size = h.size;
  reachable = h.reachable;
  entries = HoldsFrom-relinked is_utf8 inode k d 0 es h.entries;
}

put_same : (inodes : Inodes) (j : ℕ) (x : DiskInode) → put inodes j x j ≡ x
put_same inodes j x = rw (==_self j) refl

put_other : (inodes : Inodes) (id j : ℕ) (x : DiskInode) → j ≢ id → put inodes id x j ≡ inodes j
put_other inodes id j x ne = rw (==_of_ne j id ne) refl

put_own : (inodes : Inodes) (self j : ℕ) → put inodes self (inodes self) j ≡ inodes j
put_own inodes self j = elim (Bool-cases (j == self)) [
  | inl same ↦ rw same (ap inodes (ground arith))
  | inr other ↦ rw other refl
]

put_twice :
    (inodes : Inodes) (id : ℕ) (x y : DiskInode) (j : ℕ)
    → put inodes id y j ≡ put (put inodes id x) id y j
put_twice inodes id x y j = elim (Bool-cases (j == id)) [
  | inl same ↦ rw same refl
  | inr other ↦ rw other refl
]

drop_link_more :
    (efs : EasyFileSystem) (inodes : Inodes) (d : Disk) (id k : ℕ)
    → sub_u32 (inodes id).nlink 1 ≡ k
    → 0 < k
    → drop_link efs inodes d id ≡ returns (true, put inodes id (relinked (inodes id) k), d)
unfolding drop_link
drop_link_more efs inodes d id k e pos = rw (e, ==_of_ne k 0 (λ z. omega arith)) refl

drop_link_last :
    (efs : EasyFileSystem) (inodes : Inodes) (d : Disk) (id k : ℕ)
    → sub_u32 (inodes id).nlink 1 ≡ k
    → k ≡ 0
    → drop_link efs inodes d id ≡ (
        clear_locked efs (relinked (inodes id) k) d >>= λ r. returns (true, put inodes id r.0, r.1))
unfolding drop_link
drop_link_last efs inodes d id k e z = rw (e, z) refl

-- What unlinking in the directory `self` has to deliver where the search gave `at`.
pub record Dropped (is_utf8 : List ℕ → Bool) (efs : EasyFileSystem) (self : ℕ) (inodes : Inodes)
    (n : ℕ) (d : Disk) (es : Named) (i id : ℕ) (o : Outcome (Bool × Inodes × Disk)) : Type 0 where
  pub after : Inodes
  pub disk : Disk
  pub holds : Holds is_utf8 (after self) disk (shrink i es)
  pub links : (after id).nlink ≡ (inodes id).nlink - 1
  pub target : id ≢ self → after id ≡ record (inodes id) { nlink = (inodes id).nlink - 1 }
  pub others : (j : ℕ) → j ≢ self → j ≢ id → after j ≡ inodes j
  pub blocks : (b : ℕ) → ((k : ℕ) → k < n → block_of (inodes self) d k ≢ b) → disk b ≡ d b
  pub linked : 1 < (inodes id).nlink → o ≡ returns (true, after, disk)
  pub last :
      (inodes id).nlink ≡ 1
      → o ≡ (clear_locked efs (after id) disk >>= λ r. returns (true, put after id r.0, r.1))

abbrev pub Unlinks :
    (List ℕ → Bool)
    → EasyFileSystem
    → ℕ
    → Inodes
    → ℕ
    → Disk
    → Named
    → Outcome (Bool × Inodes × Disk)
    → Option (ℕ × ℕ)
    → Type 0
Unlinks is_utf8 efs self inodes n d es o none =
    (inodes' : Inodes) × (o ≡ returns (false, inodes', d)) × ((j : ℕ) → inodes' j ≡ inodes j)
Unlinks is_utf8 efs self inodes n d es o (some at) =
    Dropped is_utf8 efs self inodes n d es at.0 at.1 o

-- The inode that the search gave has a link to lose.
abbrev pub HasLinks : Inodes → Option (ℕ × ℕ) → Type 0
HasLinks inodes none = Unit
HasLinks inodes (some at) = (0 < (inodes at.1).nlink) × ((inodes at.1).nlink < 2 ^ 32)

module _ (is_utf8 : List ℕ → Bool) (efs : EasyFileSystem) (self : ℕ) (inodes : Inodes) (n : ℕ)
    (d : Disk) (es : Named) (i id : ℕ) (size : ℕ) (d' : Disk) where
  abbrev dir : DiskInode
  dir = record (inodes self) { size = size }

  abbrev shortened : Inodes
  shortened = put inodes self dir

  shortened_links : (shortened id).nlink ≡ (inodes id).nlink
  shortened_links = elim (Bool-cases (id == self)) [
    | inl same ↦ rw same (ap (λ j. (inodes j).nlink) (ground arith))
    | inr other ↦ rw other refl
  ]

  abbrev dropped : DiskInode
  dropped = relinked (shortened id) ((inodes id).nlink - 1)

  dropped_self : id ≡ self → dropped ≡ relinked dir ((inodes id).nlink - 1)
  dropped_self e =
      ap (λ x. relinked x ((inodes id).nlink - 1)) (ap shortened e ∙ put_same inodes self dir)

  drop_link-Dropped :
      Holds is_utf8 dir d' (shrink i es)
      → ((b : ℕ) → ((k : ℕ) → k < n → block_of (inodes self) d k ≢ b) → d' b ≡ d b)
      → 0 < (inodes id).nlink
      → (inodes id).nlink < 2 ^ 32
      → Dropped is_utf8 efs self inodes n d es i id (drop_link efs shortened d' id)
  drop_link-Dropped h keep pos small =
      let one : sub_u32 (shortened id).nlink 1 ≡ (inodes id).nlink - 1 =
        ap (λ k. sub_u32 k 1) shortened_links ∙ omega arith in
      record {
        after = put shortened id dropped;
        disk = d';
        holds = elim (Bool-cases (self == id)) [
          | inl same ↦
              let e : id ≡ self = ground arith in
              subst (λ x. Holds is_utf8 x d' (shrink i es))
                (sym (
                  ap (put shortened id dropped) (sym e)
                  ∙ put_same shortened id dropped
                  ∙ dropped_self e))
                (Holds-relinked is_utf8 dir ((inodes id).nlink - 1) d' (shrink i es) h)
          | inr other ↦ rw (other, ==_self self) h
        ];
        links = ap (λ x. x.nlink) (put_same shortened id dropped);
        target = λ ne.
            put_same shortened id dropped
            ∙ ap (λ x. relinked x ((inodes id).nlink - 1)) (put_other inodes self id dir ne);
        others = λ j a b. put_other shortened id j dropped b ∙ put_other inodes self j dir a;
        blocks = keep;
        linked =
            λ more. drop_link_more efs shortened d' id ((inodes id).nlink - 1) one (omega arith);
        last = λ only.
            drop_link_last efs shortened d' id ((inodes id).nlink - 1) one (omega arith)
            ∙ ap₂
                (λ (x : DiskInode) (g : DiskInode → Inodes).
                  clear_locked efs x d' >>= λ r. returns (true, g r.0, r.1))
                (sym (put_same shortened id dropped))
                (λ q y j. put_twice shortened id dropped y j q);
      }

unlink_target-Unlinks :
    (is_utf8 : List ℕ → Bool) (efs : EasyFileSystem) (self : ℕ) (inodes : Inodes) (n : ℕ) (d : Disk)
    (es : Named) (at : Option (ℕ × ℕ)) (o : Outcome (Option ℕ × DiskInode × Disk))
    → HasLinks inodes at
    → Unlinked is_utf8 (inodes self) n d es o at
    → Unlinks is_utf8 efs self inodes n d es (o >>= λ r. unlink_target efs inodes self r) at
unfolding unlink_target
unlink_target-Unlinks is_utf8 efs self inodes n d es none o links u =
    (put inodes self (inodes self), rw u refl, put_own inodes self)
unlink_target-Unlinks is_utf8 efs self inodes n d es (some at) o links u =
    let (size, d', r, h, v, keep) = u in
    rw r (drop_link-Dropped is_utf8 efs self inodes n d es at.0 at.1 size d' h keep links.0 links.1)

-- `unlink` of a name in the directory `self` with separate blocks, where the inode that the name
-- stands for, which may be the directory itself, has a link to lose. Where no entry has the name, it
-- returns `false` and changes nothing. Otherwise there are inodes and a disk in which the directory
-- holds the entries with the last one in the place of the first entry with the name, the inode of that
-- entry has one link fewer and is the same otherwise unless it is the directory, every other inode is
-- the same, and no block but the data blocks of the directory has changed. If the inode had further
-- links, `unlink` returns `true` with these; if this was its last link, the call is `clear_locked` of
-- the inode from there on, and returns `true` if that returns.
pub unlink-Unlinks :
    (is_utf8 : List ℕ → Bool) (efs : EasyFileSystem) (self : ℕ) (inodes : Inodes) (n : ℕ) (d : Disk)
    (es : Named) (name : List ℕ)
    → Holds is_utf8 (inodes self) d es
    → Separate (inodes self) d n
    → (inodes self).size ≤ n * 512
    → HasLinks inodes (find_at name es 0)
    → Unlinks is_utf8 efs self inodes n d es
        (unlink is_utf8 efs self inodes d name)
        (find_at name es 0)
unfolding unlink
unlink-Unlinks is_utf8 efs self inodes n d es name h v room links =
    let first = unlink_entry-Unlinked is_utf8 (inodes self) n d es name h v room in
    unlink_target-Unlinks is_utf8 efs self inodes n d es (find_at name es 0)
      (unlink_entry is_utf8 (inodes self) d name) links first
