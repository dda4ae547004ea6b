-- ===== src/Fs/Pipe/Queue.antt =====
-- The ring buffer of a pipe is a queue of at most 32 bytes.
use rcore_os.Prelude.{
  ℕ, zero, suc, ◌+◌, ◌%◌, ◌≤◌, ◌<◌, ◌≡◌, ◌≢◌, refl, ap, sym, ap₂, List, [], ◌∷◌, ◌++◌, some,
  if◌then◌else◌, ◌==◌, add_usize, returns, arith, length, get_elem?, get_or, set, lt→ltb,
  get_elem?-eq-get_or, get_or-set_self, get_or-set_ne, length-set,
}
use rcore_os.Fs.Pipe.{
  PipeRingBuffer, RingBufferStatus, full, empty, normal, read_byte, write_byte, ring_buffer_size,
  make_pipe, available_read, available_write,
}

-- The indexes stay inside the array, and meet exactly when the buffer is full or empty.
abbrev pub Meets : RingBufferStatus → ℕ → ℕ → Type 0
Meets full h t = h ≡ t
Meets empty h t = h ≡ t
Meets normal h t = h ≢ t

pub record IsValid (rb : PipeRingBuffer) : Type 0 where
  pub size : length rb.arr ≡ 32
  pub head_in : rb.head < 32
  pub tail_in : rb.tail < 32
  pub meets : Meets rb.status rb.head rb.tail

-- The `n` bytes from the index `h` on, going round at the end of the array.
abbrev pub slots : List ℕ → ℕ → ℕ → List ℕ
slots arr h zero = []
slots arr h (suc n) = get_or arr (h % 32) 0 ∷ slots arr (h + 1) n

-- The bytes in the buffer, oldest first.
abbrev pub contents : PipeRingBuffer → List ℕ
contents rb = slots rb.arr rb.head (available_read rb)

length-slots : (arr : List ℕ) (h n : ℕ) → length (slots arr h n) ≡ n
length-slots arr h zero = refl
length-slots arr h (suc n) = ap suc (length-slots arr (h + 1) n)

slots_round : (arr : List ℕ) (h k n : ℕ) → h % 32 ≡ k % 32 → slots arr h n ≡ slots arr k n
slots_round arr h k zero e = refl
slots_round arr h k (suc n) e =
    ap₂ ◌∷◌ (ap (λ i. get_or arr i 0) e) (slots_round arr (h + 1) (k + 1) n (omega arith))

slots-set :
    (arr : List ℕ) (h n t x : ℕ)
    → length arr ≡ 32
    → n < 32
    → t ≡ (h + n) % 32
    → slots (set arr t x) h (suc n) ≡ slots arr h n ++ (x ∷ [])
slots-set arr h zero t x s b e =
    let at : t ≡ h % 32 = omega arith in
    rw (← at) (ap (λ v. v ∷ []) (get_or-set_self arr t x 0 (omega arith)))
slots-set arr h (suc n) t x s b e =
    ap₂ ◌∷◌ (get_or-set_ne arr x 0 (λ q. omega arith))
      (slots-set arr (h + 1) n t x s (omega arith) (omega arith))

pub available_read-le : (rb : PipeRingBuffer) → IsValid rb → available_read rb ≤ 32
unfolding available_read
available_read-le rb v = ground arith

pub make_pipe-IsValid : (w : ℕ) → IsValid (make_pipe w) × (contents (make_pipe w) ≡ [])
unfolding make_pipe available_read
make_pipe-IsValid w = (omega arith, refl)

abbrev pop_front : PipeRingBuffer → PipeRingBuffer
pop_front rb = record rb {
  head = (rb.head + 1) % 32;
  status = if (rb.head + 1) % 32 == rb.tail then empty else normal;
}

abbrev push_back : PipeRingBuffer → ℕ → PipeRingBuffer
push_back rb b = record rb {
  arr = set rb.arr rb.tail b;
  tail = (rb.tail + 1) % 32;
  status = if rb.head == (rb.tail + 1) % 32 then full else normal;
}

read_byte-pop_front :
    (rb : PipeRingBuffer)
    → IsValid rb
    → read_byte rb ≡ returns (get_or rb.arr rb.head 0, pop_front rb)
unfolding read_byte
read_byte-pop_front rb v =
    let small : add_usize rb.head 1 ≡ rb.head + 1 = omega arith in
    let there : get_elem? rb.arr rb.head ≡ some (get_or rb.arr rb.head 0) =
      get_elem?-eq-get_or rb.arr rb.head 0 (omega arith) in
    rw (there, small) refl

write_byte-push_back :
    (rb : PipeRingBuffer) (b : ℕ) → IsValid rb → write_byte rb b ≡ returns (push_back rb b)
unfolding write_byte
write_byte-push_back rb b v =
    let small : add_usize rb.tail 1 ≡ rb.tail + 1 = omega arith in
    rw (lt→ltb rb.tail (length rb.arr) (omega arith), small) refl

pop_front-available :
    (rb : PipeRingBuffer) (n : ℕ)
    → IsValid rb
    → available_read rb ≡ suc n
    → available_read (pop_front rb) ≡ n
unfolding available_read
pop_front-available rb n v e = ground arith

push_back-available :
    (rb : PipeRingBuffer) (b : ℕ)
    → IsValid rb
    → available_read rb < 32
    → available_read (push_back rb b) ≡ suc (available_read rb)
unfolding available_read
push_back-available rb b v h = ground arith

tail_at :
    (rb : PipeRingBuffer)
    → IsValid rb
    → available_read rb < 32
    → rb.tail ≡ (rb.head + available_read rb) % 32
unfolding available_read
tail_at rb v h = ground arith

pop_front-IsValid : (rb : PipeRingBuffer) → IsValid rb → IsValid (pop_front rb)
pop_front-IsValid rb v = ground arith

push_back-IsValid : (rb : PipeRingBuffer) (b : ℕ) → IsValid rb → IsValid (push_back rb b)
push_back-IsValid rb b v = ground (arith, length-set rb.arr rb.tail b)

-- On a valid buffer that is not empty `read_byte` returns the oldest byte and leaves the others;
-- the buffer stays valid, with the same write end.
pub read_byte-pops :
    (rb : PipeRingBuffer) (n : ℕ)
    → IsValid rb
    → available_read rb ≡ suc n
    → (c : ℕ) × (rb' : PipeRingBuffer) × (read_byte rb ≡ returns (c, rb'))
      × (contents rb ≡ c ∷ contents rb')
      × IsValid rb'
      × (available_read rb' ≡ n)
      × (rb'.write_end ≡ rb.write_end)
read_byte-pops rb n v e =
    let left : available_read (pop_front rb) ≡ n = pop_front-available rb n v e in
    let inside : rb.head % 32 ≡ rb.head = omega arith in
    (
      get_or rb.arr rb.head 0,
      pop_front rb,
      read_byte-pop_front rb v,
      rw (e, left, inside)
          (ap (λ xs. get_or rb.arr rb.head 0 ∷ xs)
            (slots_round rb.arr (rb.head + 1) ((rb.head + 1) % 32) n (omega arith))),
      pop_front-IsValid rb v,
      left,
      refl,
    )

-- On a valid buffer that is not full `write_byte` puts the byte behind the others; the buffer stays
-- valid, with the same write end.
pub write_byte-pushes :
    (rb : PipeRingBuffer) (b : ℕ)
    → IsValid rb
    → available_read rb < 32
    → (rb' : PipeRingBuffer) × (write_byte rb b ≡ returns rb')
      × (contents rb' ≡ contents rb ++ (b ∷ []))
      × IsValid rb'
      × (available_read rb' ≡ suc (available_read rb))
      × (rb'.write_end ≡ rb.write_end)
write_byte-pushes rb b v h = (
  push_back rb b,
  write_byte-push_back rb b v,
  rw (push_back-available rb b v h)
      (slots-set rb.arr rb.head (available_read rb) rb.tail b v.size h (tail_at rb v h)),
  push_back-IsValid rb b v,
  push_back-available rb b v h,
  refl,
)

available_sum : (rb : PipeRingBuffer) → IsValid rb → available_read rb + available_write rb ≡ 32
unfolding available_write
available_sum rb v = ground arith

-- On a valid buffer `available_read` is the number of bytes in it, and `available_write` the number
-- that fit besides: together they make 32, also where the indexes meet.
pub available-contents :
    (rb : PipeRingBuffer)
    → IsValid rb
    → (available_read rb ≡ length (contents rb))
      × (available_read rb + available_write rb ≡ ring_buffer_size)
unfolding available_write
available-contents rb v =
    (sym (length-slots rb.arr rb.head (available_read rb)), available_sum rb v)
