-- ===== src/Fs/Pipe/WriteSlices.antt =====
-- `Pipe::write` from where it gets the processor to where it returns or yields.
use rcore_os.Prelude.{
  ℕ, ◌-◌, ◌≤◌, ◌<◌, ◌≡◌, ◌≢◌, inl, inr, refl, ap, sym, ◌∙◌, [], ◌++◌, append-nil, ◌==◌, Outcome,
  returns, arith, Bool-cases, length, length-append, length-pos, take, drop, take-append,
  drop-append, take_all, drop_all,
}
use rcore_os.Fs.Pipe.{
  PipeRingBuffer, available_write, Turn, done, yields, again, ring_buffer_size, Writer, write_round,
  write_slice,
}
use rcore_os.Fs.Pipe.Queue.{IsValid, contents, available-contents, available_read-le}
use rcore_os.Fs.Pipe.Writing.{Tallies, Writes, WriteEnds, write_loop-Writes}

-- How the slice of a write ends, the ring having room for `space` bytes and `n` being left to write.
abbrev pub WriteSliceEnds : Turn → ℕ → ℕ → Type 0
WriteSliceEnds done space n = n ≤ space
WriteSliceEnds yields space n = space < n
WriteSliceEnds again space n = ⊥

abbrev pub room : PipeRingBuffer → ℕ
room rb = ring_buffer_size - length (contents rb)

abbrev pub WriteSlice : Writer → PipeRingBuffer → Outcome (Turn × Writer × PipeRingBuffer) → Type 0
WriteSlice w rb o =
    (t : Turn) × (w' : Writer) × (rb' : PipeRingBuffer) × (o ≡ returns (t, w', rb'))
    × (contents rb' ≡ contents rb ++ take (room rb) w.rest)
    × (w'.rest ≡ drop (room rb) w.rest)
    × IsValid rb'
    × Tallies w'
    × (rb'.write_end ≡ rb.write_end)
    × WriteSliceEnds t (room rb) (length w.rest)

room_lem : (rb : PipeRingBuffer) → IsValid rb → room rb ≡ available_write rb
room_lem rb v = omega (arith, (available-contents rb v).0, (available-contents rb v).1)

abbrev close : Turn × Writer × PipeRingBuffer → Outcome (Turn × Writer × PipeRingBuffer)
close t = elim t.0 [ again ↦ write_round t.1 t.2 | _ ↦ returns t ]

write_round_full :
    (w : Writer) (rb : PipeRingBuffer)
    → available_write rb ≡ 0
    → write_round w rb ≡ returns (yields, w, rb)
unfolding write_round
write_round_full w rb z = rw (z, write_round) refl

no_room :
    (w : Writer) (rb : PipeRingBuffer)
    → IsValid rb
    → Tallies w
    → w.rest ≢ []
    → available_write rb ≡ 0
    → WriteSlice w rb (write_slice w rb)
unfolding write_slice
no_room w rb v k p z =
    let none : room rb ≡ 0 = room_lem rb v ∙ z in
    rw (write_round_full w rb z, none)
      (yields, w, rb, refl, sym (append-nil (contents rb)), refl, v, k, refl, length-pos w.rest p)

-- The slice, given how its loop ended.
after_loop :
    (w w' : Writer) (rb rb' : PipeRingBuffer) (t : Turn)
    → IsValid rb
    → (m : Writes w rb w' rb') → WriteEnds (available_write rb) (length m.put) t w'
    → WriteSlice w rb (close (t, w', rb'))
after_loop w w' rb rb' done v m e =
    let all : w.rest ≡ m.put = m.sent ∙ rw (e, append-nil) refl in
    let fits : length m.put ≤ room rb = omega (
      arith,
      ap length m.pushed,
      length-append (contents rb) m.put,
      (available-contents rb' m.valid).0,
      available_read-le rb' m.valid,
    ) in
    (
      done,
      w',
      rb',
      refl,
      rw (all, take_all m.put (room rb) fits) m.pushed,
      rw (all, drop_all m.put (room rb) fits) e,
      m.valid,
      m.counts,
      m.same_end,
      rw all fits,
    )
after_loop w w' rb rb' yields v m e = absurd e
after_loop w w' rb rb' again v m e =
    let size : length m.put ≡ room rb = e.0 ∙ sym (room_lem rb v) in
    let full : available_write rb' ≡ 0 =
      omega (arith, room_lem rb' m.valid, ap length m.pushed, length-append (contents rb) m.put) in
    (
      yields,
      w',
      rb',
      write_round_full w' rb' full,
      rw (m.sent, take-append m.put w'.rest (room rb) size) m.pushed,
      rw (m.sent, drop-append m.put w'.rest (room rb) size) refl,
      m.valid,
      m.counts,
      m.same_end,
      omega (arith, ap length m.sent, length-append m.put w'.rest, length-pos w'.rest e.1, size),
    )

-- From where it gets the processor, a write that has bytes to write puts as many of them into the
-- ring as fit, in order, behind those there, and keeps the rest. It returns exactly when all fitted
-- and otherwise yields with the ring full; it never panics and runs two rounds at most.
pub write_slice-WriteSlice :
    (w : Writer) (rb : PipeRingBuffer)
    → IsValid rb
    → Tallies w
    → w.rest ≢ []
    → WriteSlice w rb (write_slice w rb)
unfolding write_slice write_round
write_slice-WriteSlice w rb v k p = elim (Bool-cases (available_write rb == 0)) [
  | inl z ↦ no_room w rb v k p (ground arith)
  | inr some_room ↦
      let (t, w', rb', e, m, ends) =
        write_loop-Writes (available_write rb) w w.rest rb v k
          (omega (arith, (available-contents rb v).1)) p in
      rw (some_room, write_round, e) (after_loop w w' rb rb' t v m ends)
]
