-- ===== src/Fs/Pipe/Tests.antt =====
-- The pipe at concrete states.
use rcore_os.Prelude.{ℕ, ◌≡◌, ◌≢◌, ◌++◌, refl, true, Bool, [], ◌∷◌, some, returns, arith, replicate}
use rcore_os.Fs.Pipe.{
  PipeRingBuffer, normal, done, Reader, Writer, read_byte, write_byte, available_read,
  available_write, read_slice, write_slice, read_round, read_loop, write_round, write_loop,
  make_pipe,
}
use rcore_os.Fs.Pipe.Queue.{IsValid}
use rcore_os.Fs.Pipe.Reading.{Counts}
use rcore_os.Fs.Pipe.Writing.{Tallies}
use rcore_os.Fs.Pipe.Slices.{ReadSlice, read_slice-ReadSlice}
use rcore_os.Fs.Pipe.WriteSlices.{WriteSlice, write_slice-WriteSlice}
use rcore_os.Fs.Pipe.Fifo.{Channel, Move, reads, writes, here, next, opened, InOrder, Reach-opened}

-- The bytes 7, 8, 9 from the index 31 on, so that the buffer goes round.
abbrev round_the_end : PipeRingBuffer
round_the_end = record {
  arr = 8 ∷ 9 ∷ (replicate 29 0 ++ (7 ∷ []));
  head = 31;
  tail = 2;
  status = normal;
  write_end = some 4;
}

round_the_end-IsValid : IsValid round_the_end
round_the_end-IsValid = record {
  size = refl;
  head_in = omega arith;
  tail_in = omega arith;
  meets = λ e. omega arith;
}

three_there : available_read round_the_end ≡ 3
unfolding available_read
three_there = refl

-- A reader of five bytes that has stored one.
abbrev five_wanted : Reader
five_wanted = record { want_to_read = 5; already_read = 1; left = 4; got = 6 ∷ [] }

five_wanted-Counts : Counts five_wanted
five_wanted-Counts = record { total = refl; fits = omega arith; stored = refl }

abbrev open_ends : ℕ → Bool
open_ends w = true

read_slice-ReadSlice_example :
    ReadSlice open_ends 4 five_wanted round_the_end (read_slice open_ends five_wanted round_the_end)
read_slice-ReadSlice_example =
    read_slice-ReadSlice open_ends 4 five_wanted round_the_end round_the_end-IsValid
      five_wanted-Counts refl (omega arith)

abbrev two_to_write : Writer
two_to_write = record { want_to_write = 2; already_write = 0; rest = 1 ∷ 2 ∷ [] }

two_to_write-Tallies : Tallies two_to_write
two_to_write-Tallies = record { total = refl; fits = omega arith }

some_to_write : two_to_write.rest ≢ []
some_to_write e = cc

write_slice-WriteSlice_example :
    WriteSlice two_to_write round_the_end (write_slice two_to_write round_the_end)
write_slice-WriteSlice_example =
    write_slice-WriteSlice two_to_write round_the_end round_the_end-IsValid two_to_write-Tallies
      some_to_write

-- A pipe into which two bytes have been written, one of which has been read.
abbrev written : PipeRingBuffer
written = record {
  arr = 1 ∷ 2 ∷ replicate 30 0;
  head = 0;
  tail = 2;
  status = normal;
  write_end = some 4;
}

abbrev one_read : PipeRingBuffer
one_read = record written { head = 1 }

abbrev all_written : Writer
all_written = record { want_to_write = 2; already_write = 2; rest = [] }

abbrev one_wanted : Reader
one_wanted = record { want_to_read = 1; already_read = 0; left = 1; got = [] }

abbrev one_got : Reader
one_got = record { want_to_read = 1; already_read = 1; left = 0; got = 1 ∷ [] }

write_two : write_slice two_to_write (make_pipe 4) ≡ returns (done, all_written, written)
unfolding write_slice write_round write_loop write_byte available_write make_pipe
write_two = refl

read_one : read_slice open_ends one_wanted written ≡ returns (done, one_got, one_read)
unfolding read_slice read_round read_loop read_byte available_read
read_one = refl

abbrev after_write : Channel
after_write = record { rb = written; sent = 1 ∷ 2 ∷ []; received = [] }

abbrev after_read : Channel
after_read = record { rb = one_read; sent = 1 ∷ 2 ∷ []; received = 1 ∷ [] }

first-Move : Move (opened 4) after_write
unfolding opened
first-Move =
    writes (opened 4) done two_to_write all_written written (1 ∷ 2 ∷ []) two_to_write-Tallies
      some_to_write write_two refl

second-Move : Move after_write after_read
second-Move =
    reads after_write open_ends done one_wanted one_got one_read (1 ∷ [])
      (record { total = refl; fits = omega arith; stored = refl }) (omega arith) read_one refl

Reach-opened_example : InOrder 4 after_read
Reach-opened_example = Reach-opened 4 (next (next here first-Move) second-Move)
