-- ===== src/EasyFs/Efs/Data.antt =====
-- Allocating and giving back data blocks.
use rcore_os.Prelude.{
  ℕ, ◌+◌, ◌*◌, ◌/◌, ◌%◌, ◌^◌, ◌≤◌, ◌<◌, ◌≡◌, ◌≢◌, ◌⊎◌, inl, inr, refl, ap, sym, ◌∙◌, ◌==◌,
  if◌then◌else◌, Option, Outcome, returns, panics, ◌>>=◌, unwrap, arith, Bool-cases, ==_self,
  ==_of_ne, dec_lt,
}
use rcore_os.EasyFs.Disk.{Disk, update}
use rcore_os.EasyFs.Bitmap
use rcore_os.EasyFs.Bitmap.{Bitmap, bitmap, block_bits}
use rcore_os.EasyFs.Bitmap.Set.{
  bit_at, Allocates, exhausted, takes_first, alloc-takes_first, dealloc-Clears,
}
use rcore_os.EasyFs.Layout.{add_u32, sub_u32}
use rcore_os.EasyFs.Efs.{
  EasyFileSystem, alloc_data, dealloc_data, file_system, zeros, data_bitmap_blocks_of,
  data_area_blocks_of,
}
use rcore_os.EasyFs.Efs.Areas.{Fits, file_system-areas}

-- A file system whose data bitmap lies before its data, with few enough bits.
pub record Ordered (efs : EasyFileSystem) : Type 0 where
  pub before : efs.data_bitmap.start_block_id + efs.data_bitmap.blocks ≤ efs.data_area_start_block
  pub small : efs.data_area_start_block + efs.data_bitmap.blocks * block_bits < 2 ^ 32

-- Zeroing a block behind the bitmap leaves the bits of the bitmap alone.
bit_at-zeroed :
    (m : Bitmap) (d : Disk) (b n : ℕ)
    → m.start_block_id + m.blocks ≤ b
    → n < m.blocks * block_bits
    → bit_at m (update d b zeros) n ≡ bit_at m d n
bit_at-zeroed m d b n h k = rw (==_of_ne b (n / 4096 + m.start_block_id) (λ e. omega arith)) refl

-- What `alloc_data` does, given what the bitmap did.
abbrev pub AllocatesData : EasyFileSystem → Disk → Outcome (ℕ × Disk) → Type 0
AllocatesData efs d o =
    ((o ≡ panics)
      × ((n : ℕ) → n < efs.data_bitmap.blocks * block_bits → bit_at efs.data_bitmap d n ≡ 1))
    ⊎ ((pos : ℕ) × (d' : Disk) × (o ≡ returns (efs.data_area_start_block + pos, d'))
        × (pos < efs.data_bitmap.blocks * block_bits)
        × (bit_at efs.data_bitmap d pos ≡ 0)
        × ((n : ℕ) → n < pos → bit_at efs.data_bitmap d n ≡ 1)
        × ((n : ℕ)
            → bit_at efs.data_bitmap d' n ≡ (if pos == n then 1 else bit_at efs.data_bitmap d n))
        × ((b : ℕ) → efs.data_area_start_block ≤ b → d' b ≡ d b))

from_bitmap :
    (efs : EasyFileSystem) (d : Disk) (r : Option ℕ × Disk)
    → Ordered efs
    → Allocates efs.data_bitmap d r
    → AllocatesData efs d
        (do n ← unwrap r.0; returns (add_u32 efs.data_area_start_block (n % 2 ^ 32), r.1))
from_bitmap efs d r o (exhausted h) = inl (refl, h)
from_bitmap efs d r o (takes_first pos d' lt free ones after out) =
    let small : add_u32 efs.data_area_start_block (pos % 2 ^ 32) ≡ efs.data_area_start_block + pos =
      omega (arith, o.small) in
    inr
      (pos, d', rw small refl, lt, free, ones, after, λ b h. out b (inr (omega (arith, o.before))))

-- `alloc_data` panics exactly when every bit of the data bitmap is taken; otherwise it returns the
-- block of the first free bit, takes that bit alone, and leaves every data block as it is.
pub alloc_data-AllocatesData :
    (efs : EasyFileSystem) (d : Disk) → Ordered efs → AllocatesData efs d (alloc_data efs d)
unfolding alloc_data
alloc_data-AllocatesData efs d o =
    from_bitmap efs d (Bitmap.alloc efs.data_bitmap d) o (alloc-takes_first efs.data_bitmap d)

-- What giving the block `b` back has to deliver.
abbrev pub GivesBack : EasyFileSystem → Disk → ℕ → Outcome Disk → Type 0
GivesBack efs d b o =
    (d'' : Disk) × (o ≡ returns d'')
    × ((n : ℕ)
        → n < efs.data_bitmap.blocks * block_bits
        → bit_at efs.data_bitmap d'' n ≡ bit_at efs.data_bitmap d n)
    × (d'' b ≡ zeros)
    × ((c : ℕ) → efs.data_area_start_block ≤ c → c ≢ b → d'' c ≡ d c)

unset :
    (pos n : ℕ) (bits : ℕ → ℕ)
    → bits pos ≡ 0
    → (if pos == n then 0 else if pos == n then 1 else bits n) ≡ bits n
unset pos n bits free = elim (Bool-cases (pos == n)) [
  | inl here ↦ let same : pos ≡ n = ground arith in rw (here, ← same) (sym free)
  | inr there ↦ rw there refl
]

give_back :
    (efs : EasyFileSystem) (d d' : Disk) (pos : ℕ)
    → Ordered efs
    → pos < efs.data_bitmap.blocks * block_bits
    → bit_at efs.data_bitmap d pos ≡ 0
    → ((n : ℕ) → bit_at efs.data_bitmap d' n ≡ (if pos == n then 1 else bit_at efs.data_bitmap d n))
    → ((b : ℕ) → efs.data_area_start_block ≤ b → d' b ≡ d b)
    → GivesBack efs d
        (efs.data_area_start_block + pos)
        (dealloc_data efs d' (efs.data_area_start_block + pos))
unfolding dealloc_data
give_back efs d d' pos o lt free after keep =
    let m = efs.data_bitmap in
    let b = efs.data_area_start_block + pos in
    let back : sub_u32 b efs.data_area_start_block ≡ pos = omega (arith, o.small) in
    let behind : m.start_block_id + m.blocks ≤ b = omega (arith, o.before) in
    let on : bit_at m (update d' b zeros) pos ≡ 1 =
      bit_at-zeroed m d' b pos behind lt ∙ after pos ∙ rw (==_self pos) refl in
    let (d'', e, bits, out) = (dealloc-Clears m (update d' b zeros) pos lt).1 on in
    (
      d'',
      ap (λ k. Bitmap.dealloc m (update d' b zeros) k) back ∙ e,
      λ n h. bits n ∙ rw (bit_at-zeroed m d' b n behind h, after n) (unset pos n (bit_at m d) free),
      out b (inr behind) ∙ rw (==_self b) refl,
      λ c h ne.
          out c (inr (omega (arith, o.before))) ∙ rw (==_of_ne b c (λ q. ne (sym q))) (keep c h),
    )

never : {x : ℕ × Disk} → panics ≡ returns x → ⊥
never e = cc

-- Giving a block back right after it was allocated does not panic: each bit of the data bitmap is
-- what it was before the allocation, the block reads zero, and no other data block has changed.
pub dealloc_data-alloc_data :
    (efs : EasyFileSystem) (d d' : Disk) (b : ℕ)
    → Ordered efs
    → alloc_data efs d ≡ returns (b, d')
    → GivesBack efs d b (dealloc_data efs d' b)
dealloc_data-alloc_data efs d d' b o e = elim (alloc_data-AllocatesData efs d o) [
  | inl (p, _) ↦ absurd (never (sym p ∙ e))
  | inr (pos, d₁, p, lt, free, _, after, keep) ↦
      let same : returns (efs.data_area_start_block + pos, d₁) ≡ returns (b, d') = sym p ∙ e in
      let block : efs.data_area_start_block + pos ≡ b = cc same in
      let disk : d₁ ≡ d' = cc same in
      rw (← block, ← disk) (give_back efs d d₁ pos o lt free after keep)
]

pub file_system-Ordered : (total ib : ℕ) → Fits total ib → Ordered (file_system total ib)
unfolding file_system bitmap data_bitmap_blocks_of
file_system-Ordered total ib f = omega arith

first_free :
    (p q : ℕ) (bits : ℕ → ℕ)
    → ((n : ℕ) → n < q → bits n ≡ 1)
    → bits q ≡ 0
    → bits p ≡ 0
    → ((n : ℕ) → n < p → bits n ≡ 1)
    → p ≡ q
first_free p q bits h zq zp k = elim (dec_lt p q) [
  | yes a ↦ absurd (omega (arith, h p a, zp))
  | no a ↦ elim (dec_lt q p) [ yes b ↦ absurd (omega (arith, k q b, zq)) | no b ↦ omega arith ]
]

-- A formatted device hands out blocks that it does not have: when the bits of all its data blocks
-- are taken and the bitmap has a further, free bit, `alloc_data` returns the number of the block
-- behind the last one of the device.
pub alloc_data_past_end :
    (total ib : ℕ) (d : Disk)
    → Fits total ib
    → ((n : ℕ)
        → n < data_area_blocks_of total ib
        → bit_at (file_system total ib).data_bitmap d n ≡ 1)
    → data_area_blocks_of total ib < (file_system total ib).data_bitmap.blocks * block_bits
    → bit_at (file_system total ib).data_bitmap d (data_area_blocks_of total ib) ≡ 0
    → (d' : Disk) × (alloc_data (file_system total ib) d ≡ returns (total, d'))
alloc_data_past_end total ib d f taken more free =
    let (_, _, _, start, area, whole, _, _) = file_system-areas total ib f in
    elim (alloc_data-AllocatesData (file_system total ib) d (file_system-Ordered total ib f)) [
      | inl (_, full) ↦ absurd (omega (arith, full (data_area_blocks_of total ib) more, free))
      | inr (pos, d', e, _, zero_there, ones, _, _) ↦
          let first : pos ≡ data_area_blocks_of total ib =
            first_free pos (data_area_blocks_of total ib)
              (bit_at (file_system total ib).data_bitmap d) taken free zero_there ones in
          (d', e ∙ rw (first, whole) refl)
    ]
