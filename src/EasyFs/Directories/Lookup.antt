-- ===== src/EasyFs/Directories/Lookup.antt =====
-- A directory as a list of names with their inode numbers.
use rcore_os.Prelude.{
  ℕ, ◌+◌, ◌-◌, ◌*◌, ◌^◌, ◌≤◌, ◌<◌, ◌≡◌, refl, ap, ◌∙◌, min, Bool, true, false, List, [], ◌∷◌,
  Option, none, some, if◌then◌else◌, returns, length, arith,
}
use rcore_os.EasyFs.Disk.{Disk}
use rcore_os.EasyFs.Layout.{DiskInode, directory, is_dir, is_file}
use rcore_os.EasyFs.Layout.Io.Blocks.{file_bytes}
use rcore_os.EasyFs.Layout.Io.Reading.{read_at-file_bytes, length-file_bytes}
use rcore_os.EasyFs.Layout.Entries.{as_bytes}
use rcore_os.EasyFs.Layout.Entries.Names.{IsName, entry, name_of-entry, of_bytes-as_bytes}
use rcore_os.EasyFs.Directories.{
  same_name, read_dirent, find_entry, find_inode_id, list_entries, ls, file_count,
}

abbrev pub Named : Type 0
Named = List (List ℕ × ℕ)

-- The first number under a name.
abbrev pub lookup : List ℕ → Named → Option ℕ
lookup name [] = none
lookup name (e ∷ es) = if same_name e.0 name then some e.1 else lookup name es

abbrev pub names : Named → List (List ℕ)
names [] = []
names (e ∷ es) = e.0 ∷ names es

module _ (is_utf8 : List ℕ → Bool) where
  -- The entries of the directory from the `i`th on.
  abbrev pub HoldsFrom : DiskInode → Disk → ℕ → Named → Type 0
  HoldsFrom inode d i [] = Unit
  HoldsFrom inode d i (e ∷ es) =
      ((file_bytes inode d (i * 32) 32 ≡ as_bytes (entry e.0 e.1))
        × IsName is_utf8 e.0
        × (e.1 < 2 ^ 32))
      × HoldsFrom inode d (i + 1) es

  -- The directory holds the entries, in this order, and no others.
  pub record Holds (inode : DiskInode) (d : Disk) (es : Named) : Type 0 where
    pub is_directory : inode.kind ≡ directory
    pub size : inode.size ≡ length es * 32
    pub reachable : inode.size ≤ 16538 * 512
    pub entries : HoldsFrom inode d 0 es

pub read_dirent-entry :
    (is_utf8 : List ℕ → Bool) (inode : DiskInode) (d : Disk) (i : ℕ) (s : List ℕ) (n : ℕ)
    → inode.size ≤ 16538 * 512
    → (i + 1) * 32 ≤ inode.size
    → file_bytes inode d (i * 32) 32 ≡ as_bytes (entry s n)
    → IsName is_utf8 s
    → n < 2 ^ 32
    → read_dirent inode d i ≡ returns (entry s n)
unfolding read_dirent
read_dirent-entry is_utf8 inode d i s n small inside e v bound =
    let n32 : min (i * 32 + 32) inode.size - i * 32 ≡ 32 = omega arith in
    let got =
      read_at-file_bytes inode d (i * 32) 32 (omega arith) small
      ∙ ap (λ k. returns (file_bytes inode d (i * 32) k)) n32 in
    rw (got, length-file_bytes inode d (i * 32) 32, e, of_bytes-as_bytes s n v.short bound) refl

find_entry-lookup :
    (is_utf8 : List ℕ → Bool) (inode : DiskInode) (d : Disk) (name : List ℕ) (es : Named) (i : ℕ)
    → inode.size ≤ 16538 * 512
    → (i + length es) * 32 ≤ inode.size
    → HoldsFrom is_utf8 inode d i es
    → find_entry is_utf8 (length es) inode d name i ≡ returns (lookup name es)
unfolding find_entry
find_entry-lookup is_utf8 inode d name [] i small inside h = refl
find_entry-lookup is_utf8 inode d name (e ∷ es) i small inside h =
    let (bytes, v, bound) = h.0 in
    let later = find_entry-lookup is_utf8 inode d name es (i + 1) small (omega arith) h.1 in
    rw
      (
        read_dirent-entry is_utf8 inode d i e.0 e.1 small (omega arith) bytes v bound,
        name_of-entry is_utf8 e.0 e.1 v,
        later,
      )
      (ground arith)

list_entries-names :
    (is_utf8 : List ℕ → Bool) (inode : DiskInode) (d : Disk) (es : Named) (i : ℕ)
    → inode.size ≤ 16538 * 512
    → (i + length es) * 32 ≤ inode.size
    → HoldsFrom is_utf8 inode d i es
    → list_entries is_utf8 (length es) inode d i ≡ returns (names es)
unfolding list_entries
list_entries-names is_utf8 inode d [] i small inside h = refl
list_entries-names is_utf8 inode d (e ∷ es) i small inside h =
    let (bytes, v, bound) = h.0 in
    let later = list_entries-names is_utf8 inode d es (i + 1) small (omega arith) h.1 in
    rw
      (
        read_dirent-entry is_utf8 inode d i e.0 e.1 small (omega arith) bytes v bound,
        name_of-entry is_utf8 e.0 e.1 v,
        later,
      )
      refl

pub file_count_lem : (inode : DiskInode) (k : ℕ) → inode.size ≡ k * 32 → file_count inode ≡ k
file_count_lem inode k e = omega arith

pub kind-is_dir : (inode : DiskInode) → inode.kind ≡ directory → is_dir inode ≡ true
unfolding is_dir
kind-is_dir inode e = rw e refl

kind-is_file : (inode : DiskInode) → inode.kind ≡ directory → is_file inode ≡ false
unfolding is_file
kind-is_file inode e = rw e refl

-- In a directory that holds a list of entries, `find_inode_id` does not panic and gives the number of
-- the first entry with the name, if there is one.
pub find_inode_id-lookup :
    (is_utf8 : List ℕ → Bool) (inode : DiskInode) (d : Disk) (name : List ℕ) (es : Named)
    → Holds is_utf8 inode d es
    → find_inode_id is_utf8 inode d name ≡ returns (lookup name es)
unfolding find_inode_id
find_inode_id-lookup is_utf8 inode d name es h =
    let size = h.size in
    rw (kind-is_dir inode h.is_directory) (
      ap (λ n. find_entry is_utf8 n inode d name 0) (file_count_lem inode (length es) size)
      ∙ find_entry-lookup is_utf8 inode d name es 0 h.reachable (omega arith) h.entries)

-- `ls` of such a directory does not panic and gives the names in the order of the entries.
pub ls-names :
    (is_utf8 : List ℕ → Bool) (inode : DiskInode) (d : Disk) (es : Named)
    → Holds is_utf8 inode d es
    → ls is_utf8 inode d ≡ returns (names es)
unfolding ls
ls-names is_utf8 inode d es h =
    let size = h.size in
    rw (kind-is_file inode h.is_directory) (
      ap (λ n. list_entries is_utf8 n inode d 0) (file_count_lem inode (length es) size)
      ∙ list_entries-names is_utf8 inode d es 0 h.reachable (omega arith) h.entries)
