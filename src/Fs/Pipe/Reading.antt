-- ===== src/Fs/Pipe/Reading.antt =====
-- What a round of `Pipe::read` moves from the ring to the user's buffer.
use rcore_os.Prelude.{
  ℕ, zero, suc, ◌+◌, ◌-◌, ◌≤◌, ◌<◌, ◌^◌, ◌≡◌, ◌⊎◌, inl, inr, refl, ap, sym, ◌∙◌, Bool, true, false,
  List, [], ◌∷◌, ◌++◌, append_assoc, append-nil, some, ◌==◌, add_usize, returns, arith, Bool-cases,
  length, length-append,
}
use rcore_os.Fs.Pipe.{
  PipeRingBuffer, available_read, Turn, done, yields, again, Reader, read_loop, read_round,
  all_write_ends_closed, store,
}
use rcore_os.Fs.Pipe.Queue.{IsValid, contents, read_byte-pops}

-- A reader's counters agree with its iterator and with what it has stored.
pub record Counts (r : Reader) : Type 0 where
  pub total : r.already_read + r.left ≡ r.want_to_read
  pub fits : r.want_to_read < 2 ^ 64
  pub stored : length r.got ≡ r.already_read

-- A reader `r` has moved bytes from the front of `rb` behind those that it had, and so become `r'`,
-- leaving `rb'`.
pub record Reads (r : Reader) (rb : PipeRingBuffer) (r' : Reader) (rb' : PipeRingBuffer)
    : Type 0 where
  pub taken : List ℕ
  pub stored : r'.got ≡ r.got ++ taken
  pub popped : contents rb ≡ taken ++ contents rb'
  pub valid : IsValid rb'
  pub counts : Counts r'
  pub moved : length taken + r'.left ≡ r.left
  pub same_want : r'.want_to_read ≡ r.want_to_read
  pub same_end : rb'.write_end ≡ rb.write_end

abbrev LoopEnds : ℕ → ℕ → Turn → Reader → Type 0
LoopEnds n taken done r' = r'.left ≡ 0
LoopEnds n taken yields r' = ⊥
LoopEnds n taken again r' = (taken ≡ n) × (0 < r'.left)

no_move : (r : Reader) (rb : PipeRingBuffer) → IsValid rb → Counts r → Reads r rb r rb
no_move r rb v c = record {
  taken = [];
  stored = sym (append-nil r.got);
  popped = refl;
  valid = v;
  counts = c;
  moved = omega arith;
  same_want = refl;
  same_end = refl;
}

-- One byte read, and then more.
one_more :
    (r r' : Reader) (rb rb₁ rb' : PipeRingBuffer) (c : ℕ)
    → contents rb ≡ c ∷ contents rb₁
    → rb₁.write_end ≡ rb.write_end
    → 0 < r.left
    → Reads (store r c) rb₁ r' rb'
    → Reads r rb r' rb'
one_more r r' rb rb₁ rb' c e w h m = record {
  taken = c ∷ m.taken;
  stored = m.stored ∙ append_assoc r.got (c ∷ []) m.taken;
  popped = e ∙ ap (λ xs. c ∷ xs) m.popped;
  valid = m.valid;
  counts = m.counts;
  moved = omega (arith, m.moved);
  same_want = m.same_want;
  same_end = m.same_end ∙ w;
}

store-Counts : (r : Reader) (c : ℕ) → Counts r → 0 < r.left → Counts (store r c)
store-Counts r c k h = omega (arith, length-append r.got (c ∷ []), k.stored, k.total, k.fits)

deeper :
    (n : ℕ) (t : Turn) (r' : Reader) (k : ℕ) → LoopEnds n k t r' → LoopEnds (suc n) (suc k) t r'
deeper n done r' k h = h
deeper n yields r' k h = h
deeper n again r' k h = (omega arith, h.1)

read_loop-Reads :
    (n : ℕ) (r : Reader) (rb : PipeRingBuffer)
    → IsValid rb
    → Counts r
    → n ≤ available_read rb
    → 0 < r.left
    → (t : Turn) × (r' : Reader) × (rb' : PipeRingBuffer) × (read_loop n r rb
        ≡ returns (t, r', rb'))
      × (m : Reads r rb r' rb') × LoopEnds n (length m.taken) t r'
unfolding read_loop no_move one_more
read_loop-Reads zero r rb v k h p = (again, r, rb, refl, no_move r rb v k, (refl, p))
read_loop-Reads (suc n) r rb v k h p =
    let (c, rb₁, e, popped, v₁, avail, w) =
      read_byte-pops rb (available_read rb - 1) v (omega arith) in
    let k₁ : Counts (store r c) = store-Counts r c k p in
    let open_test : (r.left == 0) ≡ false = ground arith in
    elim (Bool-cases (add_usize r.already_read 1 == r.want_to_read)) [
      | inl full ↦ (
        done,
        store r c,
        rb₁,
        rw (open_test, read_loop, e, full) refl,
        one_more r (store r c) rb rb₁ rb₁ c popped w p (no_move (store r c) rb₁ v₁ k₁),
        ground arith,
      )
      | inr more ↦
          let (t, r', rb', e', m, ends) =
            read_loop-Reads n (store r c) rb₁ v₁ k₁ (omega arith) (ground arith) in
          (
            t,
            r',
            rb',
            rw (open_test, read_loop, e, more) e',
            one_more r r' rb rb₁ rb' c popped w p m,
            deeper n t r' (length m.taken) ends,
          )
    ]

-- How a round of a read ends: the buffer of the user is full; or the ring was empty, and the write
-- ends decide; or the ring has been emptied and more is wanted.
abbrev pub RoundEnds : Bool → ℕ → Turn → Reader → ℕ → Type 0
RoundEnds alive n done r' k = (r'.left ≡ 0) ⊎ ((n ≡ 0) × (k ≡ 0) × (alive ≡ false))
RoundEnds alive n yields r' k = (n ≡ 0) × (k ≡ 0) × (alive ≡ true) × (0 < r'.left)
RoundEnds alive n again r' k = (k ≡ n) × (0 < n) × (0 < r'.left)

from_loop :
    (alive : Bool) (n k : ℕ) (t : Turn) (r' : Reader)
    → 0 < n
    → LoopEnds n k t r'
    → RoundEnds alive n t r' k
from_loop alive n k done r' p h = inl h
from_loop alive n k yields r' p h = absurd h
from_loop alive n k again r' p h = (h.0, p, h.1)

-- A round of a read over a valid ring.
abbrev pub RoundReads : (ℕ → Bool) → ℕ → Reader → PipeRingBuffer → Type 0
RoundReads upgrade w r rb =
    (t : Turn) × (r' : Reader) × (rb' : PipeRingBuffer) × (read_round upgrade r rb
      ≡ returns (t, r', rb'))
    × (m : Reads r rb r' rb') × RoundEnds (upgrade w) (available_read rb) t r' (length m.taken)

closed_round :
    (upgrade : ℕ → Bool) (w : ℕ) (r : Reader) (rb : PipeRingBuffer)
    → IsValid rb
    → Counts r
    → rb.write_end ≡ some w
    → available_read rb ≡ 0
    → 0 < r.left
    → (alive : Bool) → upgrade w ≡ alive
    → RoundReads upgrade w r rb
unfolding read_round all_write_ends_closed no_move
closed_round upgrade w r rb v k e z p true u =
    (yields, r, rb, rw (z, read_round, e, u) refl, no_move r rb v k, (z, refl, u, p))
closed_round upgrade w r rb v k e z p false u =
    (done, r, rb, rw (z, read_round, e, u) refl, no_move r rb v k, inr (z, refl, u))

pub read_round-RoundReads :
    (upgrade : ℕ → Bool) (w : ℕ) (r : Reader) (rb : PipeRingBuffer)
    → IsValid rb
    → Counts r
    → rb.write_end ≡ some w
    → 0 < r.left
    → RoundReads upgrade w r rb
unfolding read_round
read_round-RoundReads upgrade w r rb v k e p = elim (Bool-cases (available_read rb == 0)) [
  | inl z ↦ closed_round upgrade w r rb v k e (ground arith) p (upgrade w) refl
  | inr some_there ↦
      let (t, r', rb', e', m, ends) =
        read_loop-Reads (available_read rb) r rb v k (omega arith) p in
      (
        t,
        r',
        rb',
        rw (some_there, read_round) e',
        m,
        from_loop (upgrade w) (available_read rb) (length m.taken) t r' (ground arith) ends,
      )
]
