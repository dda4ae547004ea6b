-- ===== src/EasyFs/Directories/Tests.antt =====
-- A directory with two entries.
use rcore_os.Prelude.{
  ℕ, ◌+◌, ◌≡◌, refl, Bool, true, if◌then◌else◌, ◌==◌, List, [], ◌∷◌, ◌++◌, returns, arith, get_or,
}
use rcore_os.EasyFs.Disk.{Disk}
use rcore_os.EasyFs.Efs.{EasyFileSystem}
use rcore_os.EasyFs.Directories.Links.{Unlinks, unlink-Unlinks}
use rcore_os.EasyFs.Layout.{DiskInode, directory}
use rcore_os.EasyFs.Layout.Entries.{as_bytes}
use rcore_os.EasyFs.Layout.Entries.Names.{IsName, entry}
use rcore_os.EasyFs.Directories.{Inodes, find_inode_id, unlink}
use rcore_os.EasyFs.Layout.Io.Blocks.{Separate}
use rcore_os.EasyFs.Directories.Unlinking.{find_at, shrink}
use rcore_os.EasyFs.Directories.Lookup.{Named, lookup, Holds, find_inode_id-lookup}

abbrev any_bytes : List ℕ → Bool
any_bytes bs = true

abbrev two_entries : Named
two_entries = ((97 ∷ 98 ∷ []), 3) ∷ ((99 ∷ []), 70000) ∷ []

abbrev two_names : DiskInode
two_names = record {
  size = 64;
  nlink = 1;
  direct = λ i. 500 + i;
  indirect1 = 0;
  indirect2 = 0;
  kind = directory;
}

entry_bytes : List ℕ
unfolding as_bytes
entry_bytes = as_bytes (entry (97 ∷ 98 ∷ []) 3) ++ as_bytes (entry (99 ∷ []) 70000)

abbrev entries_on_disk : Disk
entries_on_disk b k = get_or entry_bytes k 0

first-IsName : IsName any_bytes (97 ∷ 98 ∷ [])
first-IsName = record {
  short = omega arith;
  letters = ((omega arith, omega arith), ((omega arith, omega arith), tt));
  utf8 = refl;
}

second-IsName : IsName any_bytes (99 ∷ [])
second-IsName = record {
  short = omega arith;
  letters = ((omega arith, omega arith), tt);
  utf8 = refl;
}

two_names-Holds : Holds any_bytes two_names entries_on_disk two_entries
unfolding as_bytes entry_bytes
two_names-Holds = record {
  is_directory = refl;
  size = refl;
  reachable = omega arith;
  entries = ((refl, first-IsName, omega arith), ((refl, second-IsName, omega arith), tt));
}

find_inode_id-lookup_example :
    find_inode_id any_bytes two_names entries_on_disk (99 ∷ [])
    ≡ returns (lookup (99 ∷ []) two_entries)
find_inode_id-lookup_example =
    find_inode_id-lookup any_bytes two_names entries_on_disk (99 ∷ []) two_entries two_names-Holds

two_names-Separate : Separate two_names entries_on_disk 1
two_names-Separate = record {
  count = omega arith;
  distinct = λ i j hi hj e. omega arith;
  index1 = λ i hi k. absurd (omega arith);
  index2 = λ i hi k. absurd (omega arith);
  index3 = λ i j hi hj k. absurd (omega arith);
}

ab_unlinked : shrink 0 two_entries ≡ ((99 ∷ []), 70000) ∷ []
ab_unlinked = refl

abbrev three_inodes : Inodes
three_inodes j = if j == 7 then two_names else record two_names { size = 0; nlink = 2 }

abbrev some_efs : EasyFileSystem
some_efs = record {
  inode_bitmap = record { start_block_id = 0; blocks = 1 };
  data_bitmap = record { start_block_id = 1; blocks = 1 };
  inode_area_start_block = 1;
  data_area_start_block = 2;
}

unlink-Unlinks_example :
    Unlinks any_bytes some_efs 7 three_inodes 1 entries_on_disk two_entries
      (unlink any_bytes some_efs 7 three_inodes entries_on_disk (97 ∷ 98 ∷ []))
      (find_at (97 ∷ 98 ∷ []) two_entries 0)
unlink-Unlinks_example =
    unlink-Unlinks any_bytes some_efs 7 three_inodes 1 entries_on_disk two_entries (97 ∷ 98 ∷ [])
      two_names-Holds two_names-Separate (omega arith) (omega arith, omega arith)
