-- ===== src/EasyFs/Layout/Io/Tests.antt =====
-- A small file that is written across the border of its two data blocks.
use rcore_os.Prelude.{
  ℕ, ◌+◌, ◌-◌, ◌<◌, ◌≡◌, ◌≢◌, refl, ap, sym, ◌∙◌, min, List, [], ◌∷◌, length, returns, ◌>>=◌, arith,
  lt→ltb,
}
use rcore_os.EasyFs.Disk.{Disk}
use rcore_os.EasyFs.Layout.{DiskInode, file, get_block_id}
use rcore_os.EasyFs.Layout.Io.{read_loop, read_at, write_at}
use rcore_os.EasyFs.Layout.Io.Blocks.{Separate, block_of, file_bytes}
use rcore_os.EasyFs.Layout.Io.Reading.{read_at-file_bytes}
use rcore_os.EasyFs.Layout.Io.Writing.{Writes, write_at-Writes}
use rcore_os.EasyFs.Layout.Io.RoundTrip.{read_at-write_at}

abbrev two_blocks : DiskInode
two_blocks = record {
  size = 1000;
  nlink = 1;
  direct = λ i. 500 + i;
  indirect1 = 0;
  indirect2 = 0;
  kind = file;
}

abbrev numbered : Disk
numbered b k = b + k

abbrev message : List ℕ
message = 10 ∷ 20 ∷ 30 ∷ 40 ∷ []

block_of_direct : (i : ℕ) → i < 2 → block_of two_blocks numbered i ≡ 500 + i
block_of_direct i h = rw (lt→ltb i 26 (omega arith)) refl

two_blocks-Separate : Separate two_blocks numbered 2
two_blocks-Separate = record {
  count = omega arith;
  distinct = λ i j hi hj e.
      let same = sym (block_of_direct i hi) ∙ e ∙ block_of_direct j hj in omega arith;
  index1 = λ i hi k. absurd (omega arith);
  index2 = λ i hi k. absurd (omega arith);
  index3 = λ i j hi hj k. absurd (omega arith);
}

message_cons : message ≢ []
message_cons e = let n = ap length e in omega arith

read_at-file_bytes_example :
    read_at two_blocks numbered 990 100
    ≡ returns (file_bytes two_blocks numbered 990 (min (990 + 100) 1000 - 990))
read_at-file_bytes_example =
    read_at-file_bytes two_blocks numbered 990 100 (omega arith) (omega arith)

write_at-Writes_example :
    Writes two_blocks 2 numbered 510 message (write_at two_blocks numbered 510 message)
write_at-Writes_example =
    write_at-Writes two_blocks 2 numbered 510 message two_blocks-Separate (omega arith)
      (omega arith) (omega arith) message_cons

read_at-write_at_example :
    (write_at two_blocks numbered 510 message >>= λ r. read_at two_blocks r.1 510 4)
    ≡ returns message
read_at-write_at_example =
    read_at-write_at two_blocks 2 numbered 510 message two_blocks-Separate (omega arith)
      (omega arith) (omega arith) message_cons
      (omega arith, (omega arith, (omega arith, (omega arith, tt))))

read_across : read_at two_blocks numbered 511 3 ≡ returns (243 ∷ 245 ∷ 246 ∷ [])
unfolding read_at read_loop get_block_id
read_across = refl
