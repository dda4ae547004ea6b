-- ===== src/EasyFs/Layout/Reclaim.antt =====
-- The blocks that `DiskInode::clear_size` gives back include every data block of the file.
use rcore_os.Prelude.{
  ℕ, zero, suc, ◌+◌, ◌-◌, ◌/◌, ◌%◌, ◌^◌, ◌≤◌, ◌<◌, ◌≡◌, refl, ap, sym, ◌∙◌, true, Outcome, returns,
  arith, dec_le, dec_lt, List, ◌∷◌, ◌++◌, lt→ltb, lt→leb_false, le→leb, length, mem,
  mem-append_left, mem-append_right,
}
use rcore_os.EasyFs.Disk.{Block, Disk, u32_at}
use rcore_os.EasyFs.Layout.{
  DiskInode, data_blocks, total_blocks, words, direct_entries, full_groups, last_group, clear_size,
  get_block_id,
}
use rcore_os.EasyFs.Layout.Clear.{
  first_part, second_part, given_back, length-given_back, clear_size-given_back,
}
use rcore_os.EasyFs.Layout.Sizes.{total_blocks_lem}

mem_here : (x y : ℕ) (xs : List ℕ) → x ≡ y → mem y (x ∷ xs) ≡ true
mem_here x y xs e = ground arith

mem_later : (x y : ℕ) (xs : List ℕ) → mem y xs ≡ true → mem y (x ∷ xs) ≡ true
mem_later x y xs e = ground arith

mem-words : (b : Block) (i n k : ℕ) → i ≤ k → k < i + n → mem (u32_at b k) (words b i n) ≡ true
unfolding words
mem-words b i zero k h l = absurd (omega arith)
mem-words b i (suc n) k h l = elim (dec_lt i k) [
  | yes later ↦
      mem_later (u32_at b i) (u32_at b k) (words b (i + 1) n)
        (mem-words b (i + 1) n k (omega arith) (omega arith))
  | no now ↦
      let same : i ≡ k = omega arith in
      mem_here (u32_at b i) (u32_at b k) (words b (i + 1) n) (ap (u32_at b) same)
]

mem-direct_entries :
    (f : ℕ → ℕ) (i n k : ℕ) → i ≤ k → k < i + n → mem (f k) (direct_entries f i n) ≡ true
unfolding direct_entries
mem-direct_entries f i zero k h l = absurd (omega arith)
mem-direct_entries f i (suc n) k h l = elim (dec_lt i k) [
  | yes later ↦
      mem_later (f i) (f k) (direct_entries f (i + 1) n)
        (mem-direct_entries f (i + 1) n k (omega arith) (omega arith))
  | no now ↦
      let same : i ≡ k = omega arith in
      mem_here (f i) (f k) (direct_entries f (i + 1) n) (ap f same)
]

mem-full_groups :
    (d : Disk) (b : Block) (i n a k : ℕ)
    → i ≤ a
    → a < i + n
    → k < 128
    → mem (u32_at (d (u32_at b a)) k) (full_groups d b i n) ≡ true
unfolding full_groups
mem-full_groups d b i zero a k h l s = absurd (omega arith)
mem-full_groups d b i (suc n) a k h l s =
    mem_later (u32_at b i) (u32_at (d (u32_at b a)) k)
      (words (d (u32_at b i)) 0 128 ++ full_groups d b (i + 1) n)
      (elim (dec_lt i a) [
        | yes later ↦
            mem-append_right (u32_at (d (u32_at b a)) k) (words (d (u32_at b i)) 0 128)
              (full_groups d b (i + 1) n)
              (mem-full_groups d b (i + 1) n a k (omega arith) (omega arith) s)
        | no now ↦
            let same : a ≡ i = omega arith in
            rw same (
              mem-append_left (u32_at (d (u32_at b i)) k) (words (d (u32_at b i)) 0 128)
                (full_groups d b (i + 1) n) (mem-words (d (u32_at b i)) 0 128 k (omega arith) s))
      ])

mem-last_group :
    (d : Disk) (b : Block) (a1 b1 k : ℕ)
    → k < b1
    → mem (u32_at (d (u32_at b a1)) k) (last_group d b a1 b1) ≡ true
unfolding last_group
mem-last_group d b a1 b1 k h = rw (lt→ltb 0 b1 (omega arith)) (
    mem_later (u32_at b a1) (u32_at (d (u32_at b a1)) k) (words (d (u32_at b a1)) 0 b1)
      (mem-words (d (u32_at b a1)) 0 b1 k (omega arith) (omega arith)))

-- A data block of the second level, by its index after the first 154.
mem-second_part :
    (inode : DiskInode) (d : Disk) (m j : ℕ)
    → j < m
    → mem (u32_at (d (u32_at (d inode.indirect2) (j / 128))) (j % 128)) (second_part inode d m)
      ≡ true
mem-second_part inode d m j h =
    let ind2 = d inode.indirect2 in
    let x = u32_at (d (u32_at ind2 (j / 128))) (j % 128) in
    let whole = full_groups d ind2 0 (m / 128) in
    let part = last_group d ind2 (m / 128) (m % 128) in
    mem_later inode.indirect2 x (whole ++ part) (elim (dec_lt (j / 128) (m / 128)) [
      | yes inside ↦ mem-append_left x whole part (
          mem-full_groups d ind2 0 (m / 128) (j / 128) (j % 128) (omega arith) (omega arith)
            (omega arith))
      | no last ↦
          let same : j / 128 ≡ m / 128 = omega arith in
          rw same (
            mem-append_right (u32_at (d (u32_at ind2 (m / 128))) (j % 128)) whole part
              (mem-last_group d ind2 (m / 128) (m % 128) (j % 128) (omega arith)))
    ])

abbrev pub Gives : DiskInode → Disk → ℕ → List ℕ → Type 0
Gives inode d i v = (b : ℕ) × (get_block_id inode d i ≡ returns b) × (mem b v ≡ true)

pub get_direct :
    (inode : DiskInode) (d : Disk) (i : ℕ)
    → i < 26
    → get_block_id inode d i ≡ returns (inode.direct i)
unfolding get_block_id
get_direct inode d i h = rw (lt→ltb i 26 h) refl

pub get_indirect1 :
    (inode : DiskInode) (d : Disk) (i : ℕ)
    → 26 ≤ i
    → i < 154
    → get_block_id inode d i ≡ returns (u32_at (d inode.indirect1) (i - 26))
unfolding get_block_id
get_indirect1 inode d i h k = ground arith

pub get_indirect2 :
    (inode : DiskInode) (d : Disk) (i : ℕ)
    → 154 ≤ i
    → i < 16538
    → get_block_id inode d i
      ≡ returns (u32_at (d (u32_at (d inode.indirect2) ((i - 154) / 128))) ((i - 154) % 128))
unfolding get_block_id
get_indirect2 inode d i h k = ground arith

middle :
    (inode : DiskInode) (d : Disk) (m i : ℕ)
    → m ≤ 128
    → i < 26 + m
    → Gives inode d i
        (direct_entries inode.direct 0 26 ++ (inode.indirect1 ∷ words (d inode.indirect1) 0 m))
middle inode d m i small h =
    let head = direct_entries inode.direct 0 26 in
    let rest = words (d inode.indirect1) 0 m in
    elim (dec_lt i 26) [
      | yes a ↦ (
        inode.direct i,
        get_direct inode d i a,
        mem-append_left (inode.direct i) head (inode.indirect1 ∷ rest)
            (mem-direct_entries inode.direct 0 26 i (omega arith) (omega arith)),
      )
      | no a ↦
          let x = u32_at (d inode.indirect1) (i - 26) in
          (
            x,
            get_indirect1 inode d i (omega arith) (omega arith),
            mem-append_right x head (inode.indirect1 ∷ rest) (
                mem_later inode.indirect1 x rest
                  (mem-words (d inode.indirect1) 0 m (i - 26) (omega arith) (omega arith))),
          )
    ]

outer :
    (inode : DiskInode) (d : Disk) (n i : ℕ)
    → n ≤ 16538
    → i < n
    → Gives inode d i (first_part inode d ++ second_part inode d (n - 154))
outer inode d n i small h = elim (dec_lt i 154) [
  | yes a ↦
      let (x, e, m) = middle inode d 128 i (omega arith) (omega arith) in
      (x, e, mem-append_left x (first_part inode d) (second_part inode d (n - 154)) m)
  | no a ↦
      let x = u32_at (d (u32_at (d inode.indirect2) ((i - 154) / 128))) ((i - 154) % 128) in
      (
        x,
        get_indirect2 inode d i (omega arith) (omega arith),
        mem-append_right x (first_part inode d) (second_part inode d (n - 154))
            (mem-second_part inode d (n - 154) (i - 154) (omega arith)),
      )
]

given_back-Gives :
    (inode : DiskInode) (d : Disk) (n i : ℕ)
    → n ≤ 16538
    → i < n
    → Gives inode d i (given_back inode d n)
given_back-Gives inode d n i small h = elim (dec_le n 26) [
  | yes a ↦ (
    inode.direct i,
    get_direct inode d i (omega arith),
    rw (le→leb n 26 a) (mem-direct_entries inode.direct 0 n i (omega arith) (omega arith)),
  )
  | no a ↦ elim (dec_le n 154) [
    | yes b ↦
        rw (lt→leb_false n 26 (omega arith), le→leb n 154 b)
          (middle inode d (n - 26) i (omega arith) (omega arith))
    | no b ↦
        rw (lt→leb_false n 26 (omega arith), lt→leb_false n 154 (omega arith))
          (outer inode d n i small h)
  ]
]

-- What emptying a file has to deliver.
abbrev pub GivesAll : DiskInode → Disk → Outcome (List ℕ × DiskInode) → Type 0
GivesAll inode d o =
    (v : List ℕ) × (inode' : DiskInode) × (o ≡ returns (v, inode'))
    × (inode'.size ≡ 0)
    × (length v ≡ total_blocks inode.size)
    × ((i : ℕ) → i < data_blocks inode → Gives inode d i v)

-- `clear_size` of a file whose data blocks fit the two levels of index blocks does not panic. It
-- empties the file and returns as many blocks as `total_blocks` says the file has, so that the
-- check of its caller holds; among them is each data block that `get_block_id` finds.
pub clear_size-Gives :
    (inode : DiskInode) (d : Disk)
    → inode.size < 2 ^ 32 - 512
    → data_blocks inode ≤ 16538
    → GivesAll inode d (clear_size inode d)
unfolding data_blocks
clear_size-Gives inode d s h =
    let (inode', e, empty) = clear_size-given_back inode d h in
    (
      given_back inode d (data_blocks inode),
      inode',
      e,
      empty,
      length-given_back inode d (data_blocks inode) ∙ sym (total_blocks_lem inode.size s).0,
      λ i lt. given_back-Gives inode d (data_blocks inode) i h lt,
    )
