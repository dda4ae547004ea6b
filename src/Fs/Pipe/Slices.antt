-- ===== src/Fs/Pipe/Slices.antt =====
-- `Pipe::read` and `Pipe::write` from where they get the processor to where they return or yield.
use rcore_os.Prelude.{
  ℕ, ◌+◌, ◌-◌, ◌≤◌, ◌<◌, ◌≡◌, ◌⊎◌, inl, inr, refl, ap, ◌∙◌, Bool, true, false, [], ◌++◌,
  append_assoc, append-nil, some, Outcome, returns, arith, length, length-append, take, drop,
  take-append, drop-append, take_all, drop_all, eq-nil_of_length,
}
use rcore_os.Fs.Pipe.{
  PipeRingBuffer, available_read, Turn, done, yields, again, Reader, read_round, read_slice,
}
use rcore_os.Fs.Pipe.Queue.{IsValid, contents, available-contents}
use rcore_os.Fs.Pipe.Reading.{Counts, Reads, RoundEnds, read_round-RoundReads}

Reads-trans :
    (r r₁ r₂ : Reader) (rb rb₁ rb₂ : PipeRingBuffer)
    → Reads r rb r₁ rb₁
    → Reads r₁ rb₁ r₂ rb₂
    → Reads r rb r₂ rb₂
Reads-trans r r₁ r₂ rb rb₁ rb₂ m₁ m₂ = record {
  taken = m₁.taken ++ m₂.taken;
  stored = m₂.stored ∙ rw m₁.stored (append_assoc r.got m₁.taken m₂.taken);
  popped = m₁.popped ∙ rw (m₂.popped, append_assoc) refl;
  valid = m₂.valid;
  counts = m₂.counts;
  moved = omega (arith, length-append m₁.taken m₂.taken, m₁.moved, m₂.moved);
  same_want = m₂.same_want ∙ m₁.same_want;
  same_end = m₂.same_end ∙ m₁.same_end;
}

-- What a reader wants of the bytes there, moved, and the rest left.
record Moved (r : Reader) (rb : PipeRingBuffer) (r' : Reader) (rb' : PipeRingBuffer) : Type 0 where
  got : r'.got ≡ r.got ++ take r.left (contents rb)
  rest : contents rb' ≡ drop r.left (contents rb)
  size : length (contents rb) ≡ length (contents rb') + (r.left - r'.left)
  less : r'.left ≤ r.left

finish :
    (r r' : Reader) (rb rb' : PipeRingBuffer)
    → Reads r rb r' rb'
    → (r'.left ≡ 0) ⊎ (contents rb' ≡ [])
    → Moved r rb r' rb'
finish r r' rb rb' m (inl z) = record {
  got = rw (m.popped, take-append m.taken (contents rb') r.left (omega (arith, m.moved))) m.stored;
  rest = rw (m.popped, drop-append m.taken (contents rb') r.left (omega (arith, m.moved))) refl;
  size = rw m.popped (omega (arith, length-append m.taken (contents rb'), m.moved));
  less = omega (arith, m.moved);
}
finish r r' rb rb' m (inr z) =
    let all : contents rb ≡ m.taken = m.popped ∙ rw (z, append-nil) refl in
    record {
      got = rw (all, take_all m.taken r.left (omega (arith, m.moved))) m.stored;
      rest = rw (all, drop_all m.taken r.left (omega (arith, m.moved))) z;
      size = rw (all, z) (omega (arith, m.moved));
      less = omega (arith, m.moved);
    }

-- How the slice of a read ends.
abbrev pub SliceEnds : Bool → Turn → ℕ → ℕ → Type 0
SliceEnds alive done there left = (left ≤ there) ⊎ (alive ≡ false)
SliceEnds alive yields there left = (there < left) × (alive ≡ true)
SliceEnds alive again there left = ⊥

empty_there : (rb : PipeRingBuffer) → IsValid rb → available_read rb ≡ 0 → contents rb ≡ []
empty_there rb v z = eq-nil_of_length (contents rb) (omega (arith, (available-contents rb v).0))

abbrev pub ReadSlice :
    (ℕ → Bool) → ℕ → Reader → PipeRingBuffer → Outcome (Turn × Reader × PipeRingBuffer) → Type 0
ReadSlice upgrade w r rb o =
    (t : Turn) × (r' : Reader) × (rb' : PipeRingBuffer) × (o ≡ returns (t, r', rb'))
    × (r'.got ≡ r.got ++ take r.left (contents rb))
    × (contents rb' ≡ drop r.left (contents rb))
    × IsValid rb'
    × Counts r'
    × (rb'.write_end ≡ rb.write_end)
    × SliceEnds (upgrade w) t (length (contents rb)) r.left

abbrev close :
    (ℕ → Bool) → Turn × Reader × PipeRingBuffer → Outcome (Turn × Reader × PipeRingBuffer)
close upgrade t = elim t.0 [ again ↦ read_round upgrade t.1 t.2 | _ ↦ returns t ]

-- A round that took all that was there left nothing.
drained :
    (r r' : Reader) (rb rb' : PipeRingBuffer) (m : Reads r rb r' rb')
    → length (contents rb) ≡ length m.taken
    → contents rb' ≡ []
drained r r' rb rb' m e =
    eq-nil_of_length (contents rb')
      (omega (arith, ap length m.popped, length-append m.taken (contents rb')))

there_length : (rb : PipeRingBuffer) → IsValid rb → available_read rb ≡ length (contents rb)
there_length rb v = (available-contents rb v).0

stops :
    (alive : Bool) (r r₂ : Reader) (t : Turn) (n k there : ℕ)
    → n ≡ 0
    → 0 < r₂.left
    → there < r.left
    → RoundEnds alive n t r₂ k
    → SliceEnds alive t there r.left
stops alive r r₂ done n k there z p h (inl full) = absurd (omega arith)
stops alive r r₂ done n k there z p h (inr e) = inr e.2
stops alive r r₂ yields n k there z p h e = (h, e.2)
stops alive r r₂ again n k there z p h e = absurd (omega arith)

-- A round over an empty ring moves nothing; it returns exactly when the write ends are closed.
second_round :
    (alive : Bool) (r r₁ r₂ : Reader) (rb rb₁ rb₂ : PipeRingBuffer) (t : Turn)
    → Reads r rb r₁ rb₁
    → (m : Reads r₁ rb₁ r₂ rb₂) → contents rb₁ ≡ []
    → 0 < r₁.left
    → RoundEnds alive (available_read rb₁) t r₂ (length m.taken)
    → Moved r rb r₂ rb₂ × SliceEnds alive t (length (contents rb)) r.left
second_round alive r r₁ r₂ rb rb₁ rb₂ t m₁ m₂ z p ends =
    let none_left : contents rb₂ ≡ [] =
      eq-nil_of_length (contents rb₂)
        (omega (arith, ap length m₂.popped, ap length z, length-append m₂.taken (contents rb₂))) in
    let f : Moved r rb r₂ rb₂ =
      finish r r₂ rb rb₂ (Reads-trans r r₁ r₂ rb rb₁ rb₂ m₁ m₂) (inr none_left) in
    let kept : r₂.left ≡ r₁.left =
      omega (
        arith,
        m₂.moved,
        ap length m₂.popped,
        ap length z,
        length-append m₂.taken (contents rb₂),
      ) in
    let there : available_read rb₁ ≡ 0 = omega (arith, there_length rb₁ m₁.valid, ap length z) in
    (
      f,
      stops alive r r₂ t (available_read rb₁) (length m₂.taken) (length (contents rb)) there
          (rw kept p) (omega (arith, f.size, f.less, kept, ap length none_left)) ends,
    )

-- The slice, given how its first round ended.
after_round :
    (upgrade : ℕ → Bool) (w : ℕ) (r r' : Reader) (rb rb' : PipeRingBuffer) (t : Turn)
    → IsValid rb
    → rb.write_end ≡ some w
    → (m : Reads r rb r' rb') → RoundEnds (upgrade w) (available_read rb) t r' (length m.taken)
    → ReadSlice upgrade w r rb (close upgrade (t, r', rb'))
after_round upgrade w r r' rb rb' done v e m (inl z) =
    let f : Moved r rb r' rb' = finish r r' rb rb' m (inl z) in
    (done, r', rb', refl, f.got, f.rest, m.valid, m.counts, m.same_end, inl (omega (arith, f.size)))
after_round upgrade w r r' rb rb' done v e m (inr h) =
    let none_left : contents rb' ≡ [] =
      drained r r' rb rb' m (omega (arith, there_length rb v, h.0, h.1)) in
    let f : Moved r rb r' rb' = finish r r' rb rb' m (inr none_left) in
    (done, r', rb', refl, f.got, f.rest, m.valid, m.counts, m.same_end, inr h.2)
after_round upgrade w r r' rb rb' yields v e m h =
    let none_left : contents rb' ≡ [] =
      drained r r' rb rb' m (omega (arith, there_length rb v, h.0, h.1)) in
    let f : Moved r rb r' rb' = finish r r' rb rb' m (inr none_left) in
    (
      yields,
      r',
      rb',
      refl,
      f.got,
      f.rest,
      m.valid,
      m.counts,
      m.same_end,
      (omega (arith, f.less, h.3, there_length rb v, h.0), h.2),
    )
after_round upgrade w r r' rb rb' again v e m h =
    let none_left : contents rb' ≡ [] =
      drained r r' rb rb' m (omega (arith, there_length rb v, h.0)) in
    let (t, r₂, rb₂, e₂, m₂, ends) =
      read_round-RoundReads upgrade w r' rb' m.valid m.counts (m.same_end ∙ e) h.2 in
    let (f, stop) = second_round (upgrade w) r r' r₂ rb rb' rb₂ t m m₂ none_left h.2 ends in
    (t, r₂, rb₂, e₂, f.got, f.rest, m₂.valid, m₂.counts, m₂.same_end ∙ m.same_end, stop)

-- From where it gets the processor, a read that wants bytes stores as many of the bytes in the ring
-- as it still wants, in order, and leaves the rest there. It returns exactly when that was all it
-- wanted or every write end is closed, and otherwise yields with the ring empty; it never panics
-- and runs two rounds at most.
pub read_slice-ReadSlice :
    (upgrade : ℕ → Bool) (w : ℕ) (r : Reader) (rb : PipeRingBuffer)
    → IsValid rb
    → Counts r
    → rb.write_end ≡ some w
    → 0 < r.left
    → ReadSlice upgrade w r rb (read_slice upgrade r rb)
unfolding read_slice
read_slice-ReadSlice upgrade w r rb v k e p =
    let (t, r', rb', e₁, m, ends) = read_round-RoundReads upgrade w r rb v k e p in
    rw e₁ (after_round upgrade w r r' rb rb' t v e m ends)
