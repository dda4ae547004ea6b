-- ===== src/EasyFs/Layout/Io/Writing.antt =====
-- What `DiskInode::write_at` leaves on the disk.
use rcore_os.Prelude.{
  ℕ, zero, suc, ◌+◌, ◌-◌, ◌*◌, ◌/◌, ◌%◌, ◌^◌, ◌≤◌, ◌<◌, min, ◌≡◌, ◌≢◌, refl, ap, sym, ◌∙◌, true,
  false, List, [], Outcome, returns, ◌>>=◌, ◌>>◌, assert, arith, leb, ◌==◌, dec_lt, length,
  add_usize, le→leb, ==_of_ne, ==_self, take, drop, length-pos,
}
use rcore_os.EasyFs.Disk.{Disk, update}
use rcore_os.EasyFs.Layout.{DiskInode}
use rcore_os.EasyFs.Layout.Io.{splice, end_of_block, write_loop, write_at}
use rcore_os.EasyFs.Layout.Io.Blocks.{block_of, get_block_id-block_of, file_byte, Separate}
use rcore_os.EasyFs.Layout.Io.Storing.{Stored, store_part, length-drop, stored, stored_stored}

-- The disk after one round.
abbrev part_stored : DiskInode → Disk → ℕ → ℕ → List ℕ → Disk
part_stored inode d start next src =
    update d (block_of inode d (start / 512))
      (splice (d (block_of inode d (start / 512))) (start % 512) (take (next - start) src))

-- One round of the loop.
write_loop-suc :
    (fuel : ℕ) (inode : DiskInode) (d : Disk) (start end next : ℕ) (src : List ℕ)
    → start / 512 < 16538
    → end_of_block start end ≡ next
    → write_loop (suc fuel) inode d (start / 512) start end src ≡ elim (next == end) [
      | true ↦ returns (part_stored inode d start next src)
      | false ↦
          write_loop fuel inode
            (part_stored inode d start next src)
            (start / 512 + 1)
            next
            end
            (drop (next - start) src)
    ]
unfolding write_loop
write_loop-suc fuel inode d start end next src h cuts =
    let cut : start / 512 % 2 ^ 32 ≡ start / 512 = omega arith in
    let found = get_block_id-block_of inode d (start / 512) h in
    rw (cut, found)
      (ap
        (λ n. elim (n == end) [
          | true ↦ returns (part_stored inode d start n src)
          | false ↦
              write_loop fuel inode (part_stored inode d start n src) (start / 512 + 1) n end
                (drop (n - start) src)
        ])
        cuts)

-- Storing in two parts.
Stored-trans :
    (inode : DiskInode) (n : ℕ) (d d' d'' : Disk) (start next end : ℕ) (src : List ℕ)
    → start ≤ next
    → next ≤ end
    → Stored inode n d d' start next src
    → Stored inode n d' d'' next end (drop (next - start) src)
    → Stored inode n d d'' start end src
Stored-trans inode n d d' d'' start next end src h l v w = record {
  separate = w.separate;
  moved = λ i hi. w.moved i hi ∙ v.moved i hi;
  bytes = λ p hp.
      w.bytes p hp
      ∙ ap (stored next end (drop (next - start) src) p) (v.bytes p hp)
      ∙ stored_stored start next end src p (file_byte inode d p) h l;
  others = λ b away. w.others b (λ i hi e. away i hi (sym (v.moved i hi) ∙ e)) ∙ v.others b away;
}

abbrev pub Stores : DiskInode → ℕ → Disk → ℕ → ℕ → List ℕ → Outcome Disk → Type 0
Stores inode n d start end src o =
    (d' : Disk) × (o ≡ returns d') × Stored inode n d d' start end src

write_loop-Stores :
    (fuel : ℕ) (inode : DiskInode) (n : ℕ) (d : Disk) (start end : ℕ) (src : List ℕ)
    → Separate inode d n
    → start < end
    → end - start ≤ fuel
    → end ≤ n * 512
    → end - start ≤ length src
    → Stores inode n d start end src (write_loop fuel inode d (start / 512) start end src)
write_loop-Stores zero inode n d start end src v lt enough small long = absurd (omega arith)
write_loop-Stores (suc fuel) inode n d start end src v lt enough small long =
    let bound = v.count in
    elim (dec_lt ((start / 512 + 1) * 512) end) [
      | yes more ↦
          let next = (start / 512 + 1) * 512 in
          let d1 = part_stored inode d start next src in
          let rest = drop (next - start) src in
          let first =
            store_part inode n d start next src v (omega arith) (omega arith) (omega arith)
              (omega arith) in
          let size = length-drop (next - start) src in
          let (d', e, w) =
            write_loop-Stores fuel inode n d1 next end rest first.separate more (omega arith) small
              (omega arith) in
          (
            d',
            write_loop-suc fuel inode d start end next src (omega arith) (omega arith)
                ∙ rw (==_of_ne next end (λ e. omega arith)) (
                    ap (λ q. write_loop fuel inode d1 q next end rest) {x = start / 512 + 1}
                      {y = next / 512} (omega arith)
                    ∙ e),
            Stored-trans inode n d d1 d' start next end src (omega arith) (omega arith) first w,
          )
      | no last ↦ (
        part_stored inode d start end src,
        write_loop-suc fuel inode d start end end src (omega arith) (omega arith)
            ∙ rw (==_self end) refl,
        store_part inode n d start end src v (omega arith) (omega arith) (omega arith)
            (omega arith),
      )
    ]

write_at_loop :
    (inode : DiskInode) (d d' : Disk) (offset end : ℕ) (src : List ℕ)
    → min (add_usize offset (length src)) inode.size ≡ end
    → offset ≤ end
    → write_loop (suc (end - offset)) inode d (offset / 512) offset end src ≡ returns d'
    → write_at inode d offset src ≡ returns (end - offset, d')
unfolding write_at
write_at_loop inode d d' offset end src cuts le e =
    ap
      (λ n.
        assert (leb offset n)
        >> (write_loop (suc (n - offset)) inode d (offset / 512) offset n src >>= λ d''.
            returns (n - offset, d'')))
      cuts
    ∙ rw (le→leb offset end le, e) refl

-- What writing has to deliver.
abbrev pub Writes : DiskInode → ℕ → Disk → ℕ → List ℕ → Outcome (ℕ × Disk) → Type 0
Writes inode n d offset src o =
    let end = min (offset + length src) inode.size in
    (d' : Disk) × (o ≡ returns (end - offset, d')) × Stored inode n d d' offset end src

-- `write_at` at an `offset` before the end of a file whose `n` data blocks are separate, with
-- something to write, does not panic and returns how many bytes lie before the end of the file.
-- These are the bytes of the file from `offset` on; every other byte of the file keeps its value,
-- as does every block that is not a data block of the file, and the index still finds the same
-- blocks.
pub write_at-Writes :
    (inode : DiskInode) (n : ℕ) (d : Disk) (offset : ℕ) (src : List ℕ)
    → Separate inode d n
    → inode.size ≤ n * 512
    → offset + length src < 2 ^ 64
    → offset < inode.size
    → src ≢ []
    → Writes inode n d offset src (write_at inode d offset src)
write_at-Writes inode n d offset src v room fits before some =
    let end = min (offset + length src) inode.size in
    let pos = length-pos src some in
    let (d', e, w) =
      write_loop-Stores (suc (end - offset)) inode n d offset end src v (omega arith) (omega arith)
        (omega arith) (omega arith) in
    (d', write_at_loop inode d d' offset end src (omega arith) (omega arith) e, w)
