-- ===== src/EasyFs/Layout/Io/Blocks.antt =====
-- The data block that holds a part of a file, and when writing one leaves the index alone.
use rcore_os.Prelude.{
  ℕ, zero, suc, List, [], ◌∷◌, ◌+◌, ◌-◌, ◌/◌, ◌%◌, ◌≤◌, ◌<◌, ◌≡◌, ◌≢◌, refl, ap, sym, ◌∙◌,
  if◌then◌else◌, ltb, returns, arith, ==_of_ne, dec_lt, lt→ltb, ge→ltb_false,
}
use rcore_os.EasyFs.Disk.{Block, Disk, update, u32_at, byte}
use rcore_os.EasyFs.Layout.{DiskInode, get_block_id}
use rcore_os.EasyFs.Layout.Reclaim.{get_direct, get_indirect1, get_indirect2}

abbrev pub block_of : DiskInode → Disk → ℕ → ℕ
block_of inode d i =
    if ltb i 26
    then inode.direct i
    else if ltb i 154
    then u32_at (d inode.indirect1) (i - 26)
    else u32_at (d (u32_at (d inode.indirect2) ((i - 154) / 128))) ((i - 154) % 128)

pub get_block_id-block_of :
    (inode : DiskInode) (d : Disk) (i : ℕ)
    → i < 16538
    → get_block_id inode d i ≡ returns (block_of inode d i)
get_block_id-block_of inode d i h =
    ground (arith, get_direct inode d i, get_indirect1 inode d i, get_indirect2 inode d i)

-- The first `n` data blocks of a file are different, and none of them is a block of its index.
pub record Separate (inode : DiskInode) (d : Disk) (n : ℕ) : Type 0 where
  pub count : n ≤ 16538
  pub distinct : (i j : ℕ) → i < n → j < n → block_of inode d i ≡ block_of inode d j → i ≡ j
  pub index1 : (i : ℕ) → i < n → 26 < n → block_of inode d i ≢ inode.indirect1
  pub index2 : (i : ℕ) → i < n → 154 < n → block_of inode d i ≢ inode.indirect2
  pub index3 :
      (i j : ℕ)
      → i < n
      → j < n
      → 154 ≤ j
      → block_of inode d i ≢ u32_at (d inode.indirect2) ((j - 154) / 128)

pub apart : (d : Disk) (c a : ℕ) (b : Block) → c ≢ a → update d c b a ≡ d a
apart d c a b ne = rw (==_of_ne c a ne) refl

single_index :
    (inode : DiskInode) (d : Disk) (c i : ℕ) (b : Block)
    → 26 ≤ i
    → i < 154
    → c ≢ inode.indirect1
    → block_of inode (update d c b) i ≡ block_of inode d i
single_index inode d c i b h k ne =
    rw (ge→ltb_false i 26 h, lt→ltb i 154 k, apart d c inode.indirect1 b ne) refl

double_index :
    (inode : DiskInode) (d : Disk) (c i : ℕ) (b : Block)
    → 154 ≤ i
    → c ≢ inode.indirect2
    → c ≢ u32_at (d inode.indirect2) ((i - 154) / 128)
    → block_of inode (update d c b) i ≡ block_of inode d i
double_index inode d c i b h ne far =
    rw
      (
        ge→ltb_false i 26 (omega arith),
        ge→ltb_false i 154 h,
        apart d c inode.indirect2 b ne,
        apart d c (u32_at (d inode.indirect2) ((i - 154) / 128)) b far,
      )
      refl

-- Changing a data block moves no data block.
pub block_of-update :
    (inode : DiskInode) (d : Disk) (n s i : ℕ) (b : Block)
    → Separate inode d n
    → s < n
    → i < n
    → block_of inode (update d (block_of inode d s) b) i ≡ block_of inode d i
block_of-update inode d n s i b v hs hi =
    let c = block_of inode d s in
    elim (dec_lt i 26) [
      | yes direct ↦ rw (lt→ltb i 26 direct) refl
      | no other ↦ elim (dec_lt i 154) [
        | yes single ↦ single_index inode d c i b (omega arith) single (v.index1 s hs (omega arith))
        | no double ↦
            double_index inode d c i b (omega arith) (v.index2 s hs (omega arith))
              (v.index3 s i hs hi (omega arith))
      ]
    ]

-- Changing a data block leaves the file's blocks separate.
pub Separate-update :
    (inode : DiskInode) (d : Disk) (n s : ℕ) (b : Block)
    → Separate inode d n
    → s < n
    → Separate inode (update d (block_of inode d s) b) n
Separate-update inode d n s b v hs =
    let d' = update d (block_of inode d s) b in
    let stays : (i : ℕ) → i < n → block_of inode d' i ≡ block_of inode d i =
      λ i hi. block_of-update inode d n s i b v hs hi in
    record {
      count = v.count;
      distinct = λ i j hi hj e. v.distinct i j hi hj (sym (stays i hi) ∙ e ∙ stays j hj);
      index1 = λ i hi k e. v.index1 i hi k (sym (stays i hi) ∙ e);
      index2 = λ i hi k e. v.index2 i hi k (sym (stays i hi) ∙ e);
      index3 = λ i j hi hj k e. v.index3 i j hi hj k (
          sym (stays i hi)
          ∙ e
          ∙ ap (λ x. u32_at x ((j - 154) / 128))
              (apart d (block_of inode d s) inode.indirect2 b (v.index2 s hs (omega arith))));
    }

-- The byte of a file at the position `p`.
abbrev pub file_byte : DiskInode → Disk → ℕ → ℕ
file_byte inode d p = byte (d (block_of inode d (p / 512))) (p % 512)

-- The bytes of a file from the position `p` on, `n` of them.
abbrev pub file_bytes : DiskInode → Disk → ℕ → ℕ → List ℕ
file_bytes inode d p zero = []
file_bytes inode d p (suc n) = file_byte inode d p ∷ file_bytes inode d (p + 1) n
