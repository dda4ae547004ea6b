-- ===== src/Fs/Pipe.antt =====
-- os/src/fs/pipe.rs: the ring buffer of a pipe, and one round of the loops of `Pipe::read` and
-- `Pipe::write`. A round holds the buffer exclusively; other tasks run between rounds only.
pub mod Queue
pub mod Reading
pub mod Writing
pub mod Slices
pub mod WriteSlices
pub mod Fifo
mod Tests
use rcore_os.Prelude.{
  ℕ, zero, suc, ◌+◌, ◌-◌, ◌%◌, Bool, true, false, List, [], ◌∷◌, ◌++◌, Option, none, some, not,
  if◌then◌else◌, ltb, ◌==◌, add_usize, sub_usize, Outcome, returns, panics, ◌>>=◌, ◌>>◌, assert,
  unwrap, length, get_elem?, set, replicate,
}

abbrev pub ring_buffer_size : ℕ
ring_buffer_size = 32

pub data RingBufferStatus : Type 0 where
  full empty normal : RingBufferStatus

-- `write_end` names the pipe that the weak pointer is to.
pub record PipeRingBuffer : Type 0 where
  pub arr : List ℕ
  pub head : ℕ
  pub tail : ℕ
  pub status : RingBufferStatus
  pub write_end : Option ℕ

pub new : PipeRingBuffer
new = record {
  arr = replicate ring_buffer_size 0;
  head = 0;
  tail = 0;
  status = empty;
  write_end = none;
}

pub set_write_end : PipeRingBuffer → ℕ → PipeRingBuffer
set_write_end rb w = record rb { write_end = some w }

pub read_byte : PipeRingBuffer → Outcome (ℕ × PipeRingBuffer)
read_byte rb = do
  c ← unwrap (get_elem? rb.arr rb.head)
  let head' = add_usize rb.head 1 % ring_buffer_size
  returns (c, record rb { head = head'; status = if head' == rb.tail then empty else normal })

pub write_byte : PipeRingBuffer → ℕ → Outcome PipeRingBuffer
write_byte rb byte = do
  assert (ltb rb.tail (length rb.arr))
  let tail' = add_usize rb.tail 1 % ring_buffer_size
  returns (record rb {
    arr = set rb.arr rb.tail byte;
    tail = tail';
    status = if rb.head == tail' then full else normal;
  })

-- The two branches on `tail > head`.
distance : PipeRingBuffer → ℕ
distance rb =
    if ltb rb.head rb.tail
    then sub_usize rb.tail rb.head
    else sub_usize (add_usize rb.tail ring_buffer_size) rb.head

pub available_read : PipeRingBuffer → ℕ
unfolding distance
available_read rb = elim rb.status [ empty ↦ 0 | _ ↦ distance rb ]

pub available_write : PipeRingBuffer → ℕ
unfolding available_read
available_write rb = elim rb.status [
  | full ↦ 0
  | _ ↦ sub_usize ring_buffer_size (available_read rb)
]

-- `upgrade w` says whether a strong pointer to the pipe `w` is left (`Weak::upgrade`).
pub all_write_ends_closed : (ℕ → Bool) → PipeRingBuffer → Outcome Bool
all_write_ends_closed upgrade rb = elim rb.write_end [
  | some w ↦ returns (not (upgrade w))
  | none ↦ panics
]

-- What a round of the loop ends with: the call returns, the task yields to the others and tries
-- again, or the loop goes on at once.
pub data Turn : Type 0 where
  done yields again : Turn

-- The locals of `Pipe::read`: `left` counts the bytes that the buffer's iterator has still to give,
-- and `got` is what has been stored through it.
pub record Reader : Type 0 where
  pub want_to_read : ℕ
  pub already_read : ℕ
  pub left : ℕ
  pub got : List ℕ

abbrev store : Reader → ℕ → Reader
store r c = record r {
  already_read = add_usize r.already_read 1;
  left = r.left - 1;
  got = r.got ++ (c ∷ []);
}

-- `for _ in 0..loop_read`
pub read_loop : ℕ → Reader → PipeRingBuffer → Outcome (Turn × Reader × PipeRingBuffer)
read_loop zero r rb = returns (again, r, rb)
read_loop (suc n) r rb = elim (r.left == 0) [
  | true ↦ returns (done, r, rb)
  | false ↦ read_byte rb >>= λ t. elim (add_usize r.already_read 1 == r.want_to_read) [
    | true ↦ returns (done, store r t.0, t.1)
    | false ↦ read_loop n (store r t.0) t.1
  ]
]

pub read_round : (ℕ → Bool) → Reader → PipeRingBuffer → Outcome (Turn × Reader × PipeRingBuffer)
read_round upgrade r rb =
    if available_read rb == 0
    then (do
      closed ← all_write_ends_closed upgrade rb
      returns (if closed then done else yields, r, rb))
    else read_loop (available_read rb) r rb

-- `Pipe::read` up to its return, or up to where it gives the processor away: after a round that
-- ends with `again` the next one follows at once.
pub read_slice : (ℕ → Bool) → Reader → PipeRingBuffer → Outcome (Turn × Reader × PipeRingBuffer)
read_slice upgrade r rb =
    read_round upgrade r rb >>= λ t. elim t.0 [ again ↦ read_round upgrade t.1 t.2 | _ ↦ returns t ]

-- The locals of `Pipe::write`: `rest` is what the buffer's iterator has still to give.
pub record Writer : Type 0 where
  pub want_to_write : ℕ
  pub already_write : ℕ
  pub rest : List ℕ

pub write_loop : ℕ → Writer → List ℕ → PipeRingBuffer → Outcome (Turn × Writer × PipeRingBuffer)
write_loop zero w bytes rb = returns (again, record w { rest = bytes }, rb)
write_loop (suc n) w [] rb = returns (done, record w { rest = [] }, rb)
write_loop (suc n) w (b ∷ bytes) rb = write_byte rb b >>= λ rb'.
    let w' = record w { already_write = add_usize w.already_write 1; rest = bytes } in
    elim (w'.already_write == w.want_to_write) [
      | true ↦ returns (done, w', rb')
      | false ↦ write_loop n w' bytes rb'
    ]

pub write_round : Writer → PipeRingBuffer → Outcome (Turn × Writer × PipeRingBuffer)
write_round w rb =
    if available_write rb == 0
    then returns (yields, w, rb)
    else write_loop (available_write rb) w w.rest rb

-- `Pipe::write`, likewise.
pub write_slice : Writer → PipeRingBuffer → Outcome (Turn × Writer × PipeRingBuffer)
write_slice w rb =
    write_round w rb >>= λ t. elim t.0 [ again ↦ write_round t.1 t.2 | _ ↦ returns t ]

-- `make_pipe`: the buffer that both ends share, its write end being the pipe `w`.
pub make_pipe : ℕ → PipeRingBuffer
unfolding new set_write_end
make_pipe w = set_write_end new w
