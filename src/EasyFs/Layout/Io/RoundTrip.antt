-- ===== src/EasyFs/Layout/Io/RoundTrip.antt =====
-- Reading what was written to a file.
use rcore_os.Prelude.{
  ℕ, zero, suc, ◌+◌, ◌-◌, ◌*◌, ◌%◌, ◌^◌, ◌≤◌, ◌<◌, min, ◌≡◌, ◌≢◌, refl, ap, ap₂, ◌∙◌, List, [], ◌∷◌,
  All, returns, ◌>>=◌, arith, length, get_or, length-pos,
}
use rcore_os.EasyFs.Disk.{Disk}
use rcore_os.EasyFs.Layout.{DiskInode}
use rcore_os.EasyFs.Layout.Io.{read_at, write_at}
use rcore_os.EasyFs.Layout.Io.Blocks.{file_byte, file_bytes, Separate}
use rcore_os.EasyFs.Layout.Io.Reading.{read_at-file_bytes}
use rcore_os.EasyFs.Layout.Io.Storing.{Stored, stored_within}
use rcore_os.EasyFs.Layout.Io.Writing.{write_at-Writes}

abbrev pub IsByte : ℕ → Type 0
IsByte x = x < 256

get_or-All : (xs : List ℕ) (k : ℕ) → All IsByte xs → get_or xs k 0 < 256
get_or-All [] k h = omega arith
get_or-All (x ∷ xs) zero h = h.0
get_or-All (x ∷ xs) (suc k) h = get_or-All xs k h.1

file_bytes-eq :
    (inode : DiskInode) (d : Disk) (p : ℕ) (xs : List ℕ)
    → ((k : ℕ) → k < length xs → file_byte inode d (p + k) ≡ get_or xs k 0)
    → file_bytes inode d p (length xs) ≡ xs
file_bytes-eq inode d p [] h = refl
file_bytes-eq inode d p (x ∷ xs) h =
    ap₂ (λ y ys. y ∷ ys)
      (ap (file_byte inode d) {x = p} {y = p + 0} (omega arith) ∙ h 0 (omega arith))
      (file_bytes-eq inode d (p + 1) xs (λ k lt.
        ap (file_byte inode d) {x = p + 1 + k} {y = p + suc k} (omega arith)
        ∙ h (suc k) (omega arith)))

-- The bytes that were stored, read as a part of the file.
pub file_bytes-Stored :
    (inode : DiskInode) (n : ℕ) (d d' : Disk) (start end : ℕ) (src : List ℕ)
    → Stored inode n d d' start end src
    → start + length src ≡ end
    → end ≤ n * 512
    → All IsByte src
    → file_bytes inode d' start (length src) ≡ src
file_bytes-Stored inode n d d' start end src w e room bytes =
    file_bytes-eq inode d' start src (λ k lt.
      let small = get_or-All src k bytes in
      w.bytes (start + k) (omega arith)
      ∙ stored_within start end src (start + k) (file_byte inode d (start + k)) (omega arith)
          (omega arith)
      ∙ ap (λ i. get_or src i 0 % 256) {x = start + k - start} {y = k} (omega arith)
      ∙ omega arith)

-- Reading back the bytes that were written, which fit into the file, gives them.
pub read_at-write_at :
    (inode : DiskInode) (n : ℕ) (d : Disk) (offset : ℕ) (src : List ℕ)
    → Separate inode d n
    → inode.size ≤ n * 512
    → offset + length src < 2 ^ 64
    → offset + length src ≤ inode.size
    → src ≢ []
    → All IsByte src
    → (write_at inode d offset src >>= λ r. read_at inode r.1 offset (length src)) ≡ returns src
read_at-write_at inode n d offset src v room fits inside some bytes =
    let bound = v.count in
    let pos = length-pos src some in
    let end = min (offset + length src) inode.size in
    let (d', e, w) = write_at-Writes inode n d offset src v room fits (omega arith) some in
    let len : end - offset ≡ length src = omega arith in
    rw e (
      read_at-file_bytes inode d' offset (length src) fits (omega arith)
      ∙ ap returns (
          ap (file_bytes inode d' offset) len
          ∙ file_bytes-Stored inode n d d' offset end src w (omega arith) (omega arith) bytes))
