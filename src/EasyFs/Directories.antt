-- ===== src/EasyFs/Directories.antt =====
-- easy-fs/src/vfs.rs: looking names up in a directory, over the reading of its inode. The directory
-- is given by its inode and the disk; which bytes are UTF-8 is the argument `is_utf8`.
pub mod Lookup
pub mod Removal
pub mod Unlinking
pub mod Links
mod Tests
use rcore_os.Prelude.{
  ℕ, zero, suc, ◌+◌, ◌*◌, ◌/◌, ◌-◌, ◌++◌, drop, Bool, true, false, ◌&&◌, List, [], ◌∷◌, Option,
  none, some, if◌then◌else◌, leb, ◌==◌, Outcome, returns, panics, ◌>>=◌, ◌>>◌, assert, length,
}
use rcore_os.EasyFs.Disk.{Disk}
use rcore_os.EasyFs.Efs.{EasyFileSystem, dealloc_data}
use rcore_os.EasyFs.Layout.{DiskInode, is_dir, is_file, sub_u32, clear_size, total_blocks}
use rcore_os.EasyFs.Layout.Io.{read_at, write_at}
use rcore_os.EasyFs.Layout.Entries.{DirEntry, dirent_sz, of_bytes, name_of, as_bytes, new_empty}

-- Equality of two `&str`.
abbrev pub same_name : List ℕ → List ℕ → Bool
same_name [] [] = true
same_name [] (b ∷ t) = false
same_name (a ∷ s) [] = false
same_name (a ∷ s) (b ∷ t) = (a == b) && same_name s t

-- `read_at` of the entry `i`, with the check that all of it was read.
pub read_dirent : DiskInode → Disk → ℕ → Outcome DirEntry
read_dirent inode d i = do
  bs ← read_at inode d (i * dirent_sz) dirent_sz
  assert (length bs == dirent_sz)
  returns (of_bytes bs)

abbrev pub file_count : DiskInode → ℕ
file_count inode = inode.size / dirent_sz

-- The loop of `find_inode_id` over `n` entries from `i` on.
pub find_entry : (List ℕ → Bool) → ℕ → DiskInode → Disk → List ℕ → ℕ → Outcome (Option ℕ)
find_entry is_utf8 zero inode d name i = returns none
find_entry is_utf8 (suc n) inode d name i = read_dirent inode d i >>= λ e.
    (name_of is_utf8 e >>= λ s.
    if same_name s name
    then returns (some e.inode_number)
    else find_entry is_utf8 n inode d name (i + 1))

pub find_inode_id : (List ℕ → Bool) → DiskInode → Disk → List ℕ → Outcome (Option ℕ)
find_inode_id is_utf8 inode d name = do
  assert (is_dir inode)
  find_entry is_utf8 (file_count inode) inode d name 0

-- The loop of `ls`.
pub list_entries : (List ℕ → Bool) → ℕ → DiskInode → Disk → ℕ → Outcome (List (List ℕ))
list_entries is_utf8 zero inode d i = returns []
list_entries is_utf8 (suc n) inode d i = read_dirent inode d i >>= λ e.
    (name_of is_utf8 e >>= λ s.
    (list_entries is_utf8 n inode d (i + 1) >>= λ rest. returns (s ∷ rest)))

pub ls : (List ℕ → Bool) → DiskInode → Disk → Outcome (List (List ℕ))
ls is_utf8 inode d =
    if is_file inode then returns [] else list_entries is_utf8 (file_count inode) inode d 0

-- The loop of `get_dirent`.
pub find_dirent : (DirEntry → Bool) → ℕ → DiskInode → Disk → ℕ → Outcome (Option DirEntry)
find_dirent pred zero inode d i = returns none
find_dirent pred (suc n) inode d i = read_dirent inode d i >>= λ e.
    if pred e then returns (some e) else find_dirent pred n inode d (i + 1)

pub get_dirent : (DirEntry → Bool) → DiskInode → Disk → Outcome (Option DirEntry)
get_dirent pred inode d = do assert (is_dir inode); find_dirent pred (file_count inode) inode d 0

-- `unlink` from the entry `i` on that it has found: the last entry is read into `swap`, which starts
-- empty, and written over it; the directory is one entry shorter.
pub remove_entry : DiskInode → Disk → ℕ → Outcome (DiskInode × Disk)
remove_entry inode d i = do
  bs ← read_at inode d ((file_count inode - 1) * dirent_sz) dirent_sz
  r ← write_at inode d (i * dirent_sz) (bs ++ drop (length bs) (as_bytes new_empty))
  returns (record inode { size = sub_u32 inode.size dirent_sz }, r.1)

-- The loop of `unlink` that looks for the entry `name`: its index and its inode.
pub position_of : (List ℕ → Bool) → ℕ → DiskInode → Disk → List ℕ → ℕ → Outcome (Option (ℕ × ℕ))
position_of is_utf8 zero inode d name i = returns none
position_of is_utf8 (suc n) inode d name i = read_dirent inode d i >>= λ e.
    (name_of is_utf8 e >>= λ s.
    if same_name s name
    then returns (some (i, e.inode_number))
    else position_of is_utf8 n inode d name (i + 1))

-- `unlink` once the search has ended.
pub unlink_found : DiskInode → Disk → Option (ℕ × ℕ) → Outcome (Option ℕ × DiskInode × Disk)
unlink_found inode d none = returns (none, inode, d)
unlink_found inode d (some at) = do r ← remove_entry inode d at.0; returns (some at.1, r.0, r.1)

-- The first part of `unlink`, on the directory: the number of the inode that the name stood for, if it
-- was there.
pub unlink_entry :
    (List ℕ → Bool) → DiskInode → Disk → List ℕ → Outcome (Option ℕ × DiskInode × Disk)
unlink_entry is_utf8 inode d name =
    if is_dir inode
    then (do at ← position_of is_utf8 (file_count inode) inode d name 0; unlink_found inode d at)
    else returns (none, inode, d)

-- The disk inodes by their numbers, each of which has a place of its own on the device.
abbrev pub Inodes : Type 0
Inodes = ℕ → DiskInode

abbrev pub put : Inodes → ℕ → DiskInode → Inodes
put inodes id inode j = if j == id then inode else inodes j

-- The loop of `clear_locked` over the blocks that `clear_size` gives.
pub dealloc_all : EasyFileSystem → Disk → List ℕ → Outcome Disk
dealloc_all efs d [] = returns d
dealloc_all efs d (b ∷ bs) = dealloc_data efs d b >>= λ d'. dealloc_all efs d' bs

pub clear_locked : EasyFileSystem → DiskInode → Disk → Outcome (DiskInode × Disk)
clear_locked efs inode d = do
  r ← clear_size inode d
  assert (length r.0 == total_blocks inode.size)
  d' ← dealloc_all efs d r.0
  returns (r.1, d')

-- The inode that the name stood for loses a link, and its data with the last one.
pub drop_link : EasyFileSystem → Inodes → Disk → ℕ → Outcome (Bool × Inodes × Disk)
drop_link efs inodes d id =
    let inode = record (inodes id) { nlink = sub_u32 (inodes id).nlink 1 } in
    if inode.nlink == 0
    then (do r ← clear_locked efs inode d; returns (true, put inodes id r.0, r.1))
    else returns (true, put inodes id inode, d)

-- `unlink` once the directory has been changed.
pub unlink_target :
    EasyFileSystem → Inodes → ℕ → Option ℕ × DiskInode × Disk → Outcome (Bool × Inodes × Disk)
unlink_target efs inodes self (none, inode, d) = returns (false, put inodes self inode, d)
unlink_target efs inodes self (some id, inode, d) = drop_link efs (put inodes self inode) d id

-- `Inode::unlink` of the inode `self`.
pub unlink :
    (List ℕ → Bool) → EasyFileSystem → ℕ → Inodes → Disk → List ℕ → Outcome (Bool × Inodes × Disk)
unlink is_utf8 efs self inodes d name =
    unlink_entry is_utf8 (inodes self) d name >>= λ r. unlink_target efs inodes self r
