-- ===== src/EasyFs/Layout/Entries.antt =====
-- easy-fs/src/layout.rs: the entries of a directory, and their 32 bytes. A `&str` is its bytes; which
-- bytes are UTF-8 is the argument `is_utf8`.
pub mod Names
use rcore_os.Prelude.{
  ℕ, zero, suc, ◌+◌, ◌-◌, ◌*◌, ◌/◌, ◌%◌, Bool, true, false, List, [], ◌∷◌, ◌++◌, Option, none, some,
  if◌then◌else◌, leb, ◌==◌, Outcome, returns, panics, ◌>>=◌, ◌>>◌, assert, unwrap, length, take,
  drop, get_or, replicate,
}
use mathlib.Core.Option

abbrev pub name_length_limit : ℕ
name_length_limit = 27

abbrev pub dirent_sz : ℕ
dirent_sz = 32

-- `name` has `name_length_limit + 1` bytes.
pub record DirEntry : Type 0 where
  pub name : List ℕ
  pub inode_number : ℕ

unfoldable pub new_empty : DirEntry
new_empty = record { name = replicate (name_length_limit + 1) 0; inode_number = 0 }

-- `DirEntry::new`
pub new : List ℕ → ℕ → Outcome DirEntry
new name inode_number = do
  assert (leb (length name) name_length_limit)
  returns (record {
    name = name ++ replicate (name_length_limit + 1 - length name) 0;
    inode_number = inode_number;
  })

-- `DirEntry::as_bytes`: the name and, at the offset 28, the number with its low byte first.
unfoldable pub as_bytes : DirEntry → List ℕ
as_bytes e =
    e.name
    ++ (e.inode_number % 256
        ∷ e.inode_number / 256 % 256
        ∷ e.inode_number / 256 / 256 % 256
        ∷ e.inode_number / 256 / 256 / 256 % 256
        ∷ [])

abbrev number_of : List ℕ → ℕ
number_of bs =
    get_or bs 0 0
    + 256 * get_or bs 1 0
    + 256 * 256 * get_or bs 2 0
    + 256 * 256 * 256 * get_or bs 3 0

-- An entry whose bytes `as_bytes_mut` has been filled with `bs`.
pub of_bytes : List ℕ → DirEntry
of_bytes bs = record {
  name = take (name_length_limit + 1) bs;
  inode_number = number_of (drop (name_length_limit + 1) bs);
}

-- `bs.iter().position(|c| c == &0)`
abbrev pub position_zero : List ℕ → Option ℕ
position_zero [] = none
position_zero (b ∷ bs) = if b == 0 then some 0 else Option.map suc (position_zero bs)

-- `DirEntry::name`
pub name_of : (List ℕ → Bool) → DirEntry → Outcome (List ℕ)
name_of is_utf8 e = do
  len ← unwrap (position_zero e.name)
  assert (is_utf8 (take len e.name))
  returns (take len e.name)
