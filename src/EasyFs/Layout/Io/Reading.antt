-- ===== src/EasyFs/Layout/Io/Reading.antt =====
-- What `DiskInode::read_at` stores in its buffer.
use rcore_os.Prelude.{
  ℕ, zero, suc, ◌+◌, ◌-◌, ◌*◌, ◌/◌, ◌%◌, ◌^◌, ◌≤◌, ◌<◌, min, ◌≡◌, refl, ap, ap₂, sym, ◌∙◌, true,
  false, List, [], ◌∷◌, ◌++◌, append_assoc, returns, arith, ◌==◌, dec_lt, length, add_usize, le→leb,
  lt→leb_false, ==_of_ne, ==_self,
}
use rcore_os.EasyFs.Disk.{Disk}
use rcore_os.EasyFs.Layout.{DiskInode}
use rcore_os.EasyFs.Layout.Io.{slice, end_of_block, read_loop, read_at}
use rcore_os.EasyFs.Layout.Io.Blocks.{block_of, get_block_id-block_of, file_byte, file_bytes}

pub length-file_bytes :
    (inode : DiskInode) (d : Disk) (p n : ℕ) → length (file_bytes inode d p n) ≡ n
length-file_bytes inode d p zero = refl
length-file_bytes inode d p (suc n) = ap suc (length-file_bytes inode d (p + 1) n)

file_bytes-append :
    (inode : DiskInode) (d : Disk) (p m n q : ℕ)
    → q ≡ p + m
    → file_bytes inode d p m ++ file_bytes inode d q n ≡ file_bytes inode d p (m + n)
file_bytes-append inode d p zero n q e = ap₂ (file_bytes inode d) (omega arith) (omega arith)
file_bytes-append inode d p (suc m) n q e =
    ap (λ xs. file_byte inode d p ∷ xs) (file_bytes-append inode d (p + 1) m n q (omega arith))
    ∙ ap (file_bytes inode d p) {x = suc (m + n)} {y = suc m + n} (omega arith)

slice-file_bytes :
    (inode : DiskInode) (d : Disk) (p n : ℕ)
    → p % 512 + n ≤ 512
    → slice (d (block_of inode d (p / 512))) (p % 512) n ≡ file_bytes inode d p n
slice-file_bytes inode d p zero h = refl
slice-file_bytes inode d p (suc zero) h = refl
slice-file_bytes inode d p (suc (suc n)) h =
    let part : (p + 1) / 512 ≡ p / 512 = omega arith in
    let off : (p + 1) % 512 ≡ p % 512 + 1 = omega arith in
    ap (λ xs. file_byte inode d p ∷ xs)
      (ap₂ (λ q o. slice (d (block_of inode d q)) o (suc n)) (sym part) (sym off)
        ∙ slice-file_bytes inode d (p + 1) (suc n) (omega arith))

-- One round of the loop.
read_loop-suc :
    (fuel : ℕ) (inode : DiskInode) (d : Disk) (start end next : ℕ) (buf : List ℕ)
    → start / 512 < 16538
    → end_of_block start end ≡ next
    → start % 512 + (next - start) ≤ 512
    → read_loop (suc fuel) inode d (start / 512) start end buf ≡ elim (next == end) [
      | true ↦ returns (buf ++ file_bytes inode d start (next - start))
      | false ↦
          read_loop fuel inode d
            (start / 512 + 1)
            next
            end
            (buf ++ file_bytes inode d start (next - start))
    ]
unfolding read_loop
read_loop-suc fuel inode d start end next buf h cuts part =
    let cut : start / 512 % 2 ^ 32 ≡ start / 512 = omega arith in
    let found = get_block_id-block_of inode d (start / 512) h in
    rw (cut, found)
      (ap₂
        (λ n xs. elim (n == end) [
          | true ↦ returns (buf ++ xs)
          | false ↦ read_loop fuel inode d (start / 512 + 1) n end (buf ++ xs)
        ])
        cuts
        (ap (λ n. slice (d (block_of inode d (start / 512))) (start % 512) (n - start)) cuts
          ∙ slice-file_bytes inode d start (next - start) part))

read_loop-file_bytes :
    (fuel : ℕ) (inode : DiskInode) (d : Disk) (start end : ℕ) (buf : List ℕ)
    → start < end
    → end - start ≤ fuel
    → end ≤ 16538 * 512
    → read_loop fuel inode d (start / 512) start end buf
      ≡ returns (buf ++ file_bytes inode d start (end - start))
unfolding read_loop
read_loop-file_bytes zero inode d start end buf lt enough small = absurd (omega arith)
read_loop-file_bytes (suc fuel) inode d start end buf lt enough small =
    elim (dec_lt ((start / 512 + 1) * 512) end) [
      | yes more ↦
          let next = (start / 512 + 1) * 512 in
          let here = file_bytes inode d start (next - start) in
          let left = file_bytes inode d next (end - next) in
          read_loop-suc fuel inode d start end next buf (omega arith) (omega arith) (omega arith)
          ∙ rw (==_of_ne next end (λ e. omega arith)) (
              ap (λ q. read_loop fuel inode d q next end (buf ++ here)) {x = start / 512 + 1}
                {y = next / 512} (omega arith)
              ∙ read_loop-file_bytes fuel inode d next end (buf ++ here) more (omega arith) small
              ∙ ap returns (
                  append_assoc buf here left
                  ∙ ap (λ xs. buf ++ xs)
                      (file_bytes-append inode d start (next - start) (end - next) next
                          (omega arith)
                        ∙ ap (file_bytes inode d start) {x = next - start + (end - next)}
                            {y = end - start} (omega arith))))
      | no last ↦
          read_loop-suc fuel inode d start end end buf (omega arith) (omega arith) (omega arith)
          ∙ rw (==_self end) refl
    ]

-- `read_at` of an inode whose size is at most what the index can reach stores in the buffer the
-- bytes of the file from `offset` on, up to the end of the buffer or of the file, whichever comes
-- first, each from the block and the place that its position has; it stores nothing where `offset`
-- is at or after the end. It does not panic.
pub read_at-file_bytes :
    (inode : DiskInode) (d : Disk) (offset len : ℕ)
    → offset + len < 2 ^ 64
    → inode.size ≤ 16538 * 512
    → read_at inode d offset len
      ≡ returns (file_bytes inode d offset (min (offset + len) inode.size - offset))
unfolding read_at
read_at-file_bytes inode d offset len fits small =
    let whole : add_usize offset len ≡ offset + len = omega arith in
    let end = min (offset + len) inode.size in
    rw whole (elim (dec_lt offset end) [
      | yes more ↦ rw (lt→leb_false end offset more) (
          read_loop-file_bytes (end - offset) inode d offset end [] more (omega arith)
            (omega arith))
      | no past ↦
          let nothing : end - offset ≡ 0 = omega arith in
          rw (le→leb end offset (omega arith))
            (ap (λ n. returns (file_bytes inode d offset n)) (sym nothing))
    ])
