-- ===== src/EasyFs/Layout/Clear.antt =====
-- `DiskInode::clear_size` gives back every block of a file.
use rcore_os.Prelude.{
  ℕ, zero, suc, ◌+◌, ◌-◌, ◌*◌, ◌/◌, ◌%◌, ◌≤◌, ◌≡◌, refl, ap, min, ltb, leb, if◌then◌else◌, returns,
  arith, dec_le, List, ◌∷◌, ◌++◌, length, length-append,
}
use rcore_os.EasyFs.Disk.{Block, Disk, u32_at}
use rcore_os.EasyFs.Layout.{
  DiskInode, data_blocks, index_blocks, words, direct_entries, full_groups, last_group, clear_size,
}

length-words : (b : Block) (i n : ℕ) → length (words b i n) ≡ n
unfolding words
length-words b i zero = refl
length-words b i (suc n) = ap suc (length-words b (i + 1) n)

length-direct_entries : (f : ℕ → ℕ) (i n : ℕ) → length (direct_entries f i n) ≡ n
unfolding direct_entries
length-direct_entries f i zero = refl
length-direct_entries f i (suc n) = ap suc (length-direct_entries f (i + 1) n)

length-full_groups : (d : Disk) (b : Block) (i n : ℕ) → length (full_groups d b i n) ≡ n * 129
unfolding full_groups
length-full_groups d b i zero = refl
length-full_groups d b i (suc n) = omega (
  arith,
  length-append (words (d (u32_at b i)) 0 128) (full_groups d b (i + 1) n),
  length-words (d (u32_at b i)) 0 128,
  length-full_groups d b (i + 1) n,
)

length-last_group :
    (d : Disk) (b : Block) (a1 b1 : ℕ)
    → length (last_group d b a1 b1) ≡ (if ltb 0 b1 then suc b1 else 0)
unfolding last_group
length-last_group d b a1 b1 = ground (arith, length-words (d (u32_at b a1)) 0 b1)

-- What `clear_size` gives back for `n` data blocks.
abbrev pub given_back : DiskInode → Disk → ℕ → List ℕ
given_back inode d n =
    if leb n 26
    then direct_entries inode.direct 0 n
    else if leb n 154
    then direct_entries inode.direct 0 26
      ++ (inode.indirect1 ∷ words (d inode.indirect1) 0 (n - 26))
    else (direct_entries inode.direct 0 26 ++ (inode.indirect1 ∷ words (d inode.indirect1) 0 128))
      ++ (inode.indirect2
          ∷ (full_groups d (d inode.indirect2) 0 ((n - 154) / 128)
              ++ last_group d (d inode.indirect2) ((n - 154) / 128) ((n - 154) % 128)))

abbrev pub first_part : DiskInode → Disk → List ℕ
first_part inode d =
    direct_entries inode.direct 0 26 ++ (inode.indirect1 ∷ words (d inode.indirect1) 0 128)

abbrev pub second_part : DiskInode → Disk → ℕ → List ℕ
second_part inode d m =
    inode.indirect2
    ∷ (full_groups d (d inode.indirect2) 0 (m / 128)
        ++ last_group d (d inode.indirect2) (m / 128) (m % 128))

large :
    (inode : DiskInode) (d : Disk) (n : ℕ)
    → length (first_part inode d ++ second_part inode d (n - 154))
      ≡ 156 + (n - 154) / 128 * 129 + (if ltb 0 ((n - 154) % 128) then suc ((n - 154) % 128) else 0)
large inode d n =
    let m = n - 154 in
    let ind2 = d inode.indirect2 in
    omega (
      arith,
      length-append (first_part inode d) (second_part inode d m),
      length-append (direct_entries inode.direct 0 26)
          (inode.indirect1 ∷ words (d inode.indirect1) 0 128),
      length-direct_entries inode.direct 0 26,
      length-words (d inode.indirect1) 0 128,
      length-append (full_groups d ind2 0 (m / 128)) (last_group d ind2 (m / 128) (m % 128)),
      length-full_groups d ind2 0 (m / 128),
      length-last_group d ind2 (m / 128) (m % 128),
    )

pub length-given_back :
    (inode : DiskInode) (d : Disk) (n : ℕ) → length (given_back inode d n) ≡ n + index_blocks n
unfolding index_blocks
length-given_back inode d n = ground (
  arith,
  length-direct_entries inode.direct 0 n,
  length-direct_entries inode.direct 0 26,
  length-append (direct_entries inode.direct 0 26)
      (inode.indirect1 ∷ words (d inode.indirect1) 0 (n - 26)),
  length-words (d inode.indirect1) 0 (n - 26),
  large inode d n,
)

pub clear_size-given_back :
    (inode : DiskInode) (d : Disk)
    → data_blocks inode ≤ 16538
    → (inode' : DiskInode) × (clear_size inode d
        ≡ returns (given_back inode d (data_blocks inode), inode'))
      × (inode'.size ≡ 0)
unfolding clear_size
clear_size-given_back inode d h = elim (dec_le (data_blocks inode) 26) [
  | yes a ↦ (
    record inode {
      size = 0;
      direct = λ i. if ltb i (min (data_blocks inode) 26) then 0 else inode.direct i;
    },
    ground arith,
    refl,
  )
  | no a ↦ elim (dec_le (data_blocks inode) 154) [
    | yes b ↦ (
      record inode {
        size = 0;
        direct = λ i. if ltb i (min (data_blocks inode) 26) then 0 else inode.direct i;
        indirect1 = 0;
      },
      ground arith,
      refl,
    )
    | no b ↦ (
      record inode {
        size = 0;
        direct = λ i. if ltb i (min (data_blocks inode) 26) then 0 else inode.direct i;
        indirect1 = 0;
        indirect2 = 0;
      },
      ground arith,
      refl,
    )
  ]
]
