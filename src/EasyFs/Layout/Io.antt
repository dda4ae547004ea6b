-- ===== src/EasyFs/Layout/Io.antt =====
-- easy-fs/src/layout.rs: `DiskInode::read_at` and `DiskInode::write_at`, block by block. Each loop
-- runs on fuel, one for each byte that is to be moved; where the fuel is used up it panics.
pub mod Blocks
pub mod Reading
pub mod Storing
pub mod Writing
pub mod RoundTrip
mod Tests
use rcore_os.Prelude.{
  ℕ, zero, suc, ◌+◌, ◌-◌, ◌*◌, ◌/◌, ◌%◌, ◌^◌, min, Bool, true, false, ◌&&◌, List, [], ◌∷◌, ◌++◌,
  if◌then◌else◌, ltb, leb, ◌==◌, Outcome, returns, panics, ◌>>=◌, ◌>>◌, assert, length, take, drop,
  get_or, add_usize,
}
use rcore_os.EasyFs.Disk.{Block, Disk, update, byte, block_sz}
use rcore_os.EasyFs.Layout.{DiskInode, get_block_id}

-- `data_block[off..off + n]`
abbrev pub slice : Block → ℕ → ℕ → List ℕ
slice b off zero = []
slice b off (suc n) = byte b off ∷ slice b (off + 1) n

-- `data_block[off..off + src.len()].copy_from_slice(src)`
abbrev pub splice : Block → ℕ → List ℕ → Block
splice b off src k = if leb off k && ltb k (off + length src) then get_or src (k - off) 0 else b k

abbrev pub end_of_block : ℕ → ℕ → ℕ
end_of_block start end = min ((start / block_sz + 1) * block_sz) end

pub read_loop : ℕ → DiskInode → Disk → ℕ → ℕ → ℕ → List ℕ → Outcome (List ℕ)
read_loop zero inode d start_block start end buf = panics
read_loop (suc fuel) inode d start_block start end buf =
    get_block_id inode d (start_block % 2 ^ 32) >>= λ b.
    let buf' = buf ++ slice (d b) (start % block_sz) (end_of_block start end - start) in
    elim (end_of_block start end == end) [
      | true ↦ returns buf'
      | false ↦ read_loop fuel inode d (start_block + 1) (end_of_block start end) end buf'
    ]

-- The bytes that are stored in a buffer of `len` bytes.
pub read_at : DiskInode → Disk → ℕ → ℕ → Outcome (List ℕ)
read_at inode d offset len =
    let end = min (add_usize offset len) inode.size in
    if leb end offset
    then returns []
    else read_loop (end - offset) inode d (offset / block_sz) offset end []

pub write_loop : ℕ → DiskInode → Disk → ℕ → ℕ → ℕ → List ℕ → Outcome Disk
write_loop zero inode d start_block start end src = panics
write_loop (suc fuel) inode d start_block start end src =
    get_block_id inode d (start_block % 2 ^ 32) >>= λ b.
    let n = end_of_block start end - start in
    let d' = update d b (splice (d b) (start % block_sz) (take n src)) in
    elim (end_of_block start end == end) [
      | true ↦ returns d'
      | false ↦ write_loop fuel inode d' (start_block + 1) (end_of_block start end) end (drop n src)
    ]

-- The number of bytes written, and the disk. The loop is entered also with nothing to write.
pub write_at : DiskInode → Disk → ℕ → List ℕ → Outcome (ℕ × Disk)
write_at inode d offset src = do
  let end = min (add_usize offset (length src)) inode.size
  assert (leb offset end)
  d' ← write_loop (suc (end - offset)) inode d (offset / block_sz) offset end src
  returns (end - offset, d')
