-- ===== src/Fs/Pipe/Fifo.antt =====
-- A pipe under any number of readers and writers, in any order: what was sent and what was received.
use rcore_os.Prelude.{
  ℕ, ◌≤◌, ◌<◌, ◌≡◌, ◌≢◌, refl, ap, sym, subst, ◌∙◌, Bool, List, [], ◌++◌, append_assoc, returns,
  some, arith, length, take, append_cancel_left, append_cancel_right, take-append-drop,
}
use rcore_os.Fs.Pipe.{
  PipeRingBuffer, Turn, Reader, Writer, read_slice, write_slice, make_pipe, ring_buffer_size,
}
use rcore_os.Fs.Pipe.Queue.{
  IsValid, contents, available-contents, available_read-le, make_pipe-IsValid,
}
use rcore_os.Fs.Pipe.Reading.{Counts}
use rcore_os.Fs.Pipe.Writing.{Tallies}
use rcore_os.Fs.Pipe.Slices.{read_slice-ReadSlice}
use rcore_os.Fs.Pipe.WriteSlices.{write_slice-WriteSlice, room}

-- The ring, with all that was ever put in and all that was ever taken out, in order.
pub record Channel : Type 0 where
  pub rb : PipeRingBuffer
  pub sent : List ℕ
  pub received : List ℕ

-- Some reader or writer that still wants bytes runs until it returns or yields; which write ends
-- are left at that time is `upgrade`.
pub data Move : Channel → Channel → Type 0 where
  reads :
      (c : Channel) (upgrade : ℕ → Bool) (t : Turn) (r r' : Reader) (rb' : PipeRingBuffer)
      (xs : List ℕ)
      → Counts r
      → 0 < r.left
      → read_slice upgrade r c.rb ≡ returns (t, r', rb')
      → r'.got ≡ r.got ++ xs
      → Move c (record c { rb = rb'; received = c.received ++ xs })
  writes :
      (c : Channel) (t : Turn) (w w' : Writer) (rb' : PipeRingBuffer) (xs : List ℕ)
      → Tallies w
      → w.rest ≢ []
      → write_slice w c.rb ≡ returns (t, w', rb')
      → w.rest ≡ xs ++ w'.rest
      → Move c (record c { rb = rb'; sent = c.sent ++ xs })

pub data Reach (c : Channel) : Channel → Type 0 where
  here : Reach c c
  next : {d e : Channel} → Reach c d → Move d e → Reach c e

unfoldable pub opened : ℕ → Channel
opened w = record { rb = make_pipe w; sent = []; received = [] }

pub record InOrder (w : ℕ) (c : Channel) : Type 0 where
  pub kept : c.sent ≡ c.received ++ contents c.rb
  pub bounded : length (contents c.rb) ≤ ring_buffer_size
  pub valid : IsValid c.rb
  pub write_end : c.rb.write_end ≡ some w

contents_bounded : (rb : PipeRingBuffer) → IsValid rb → length (contents rb) ≤ ring_buffer_size
contents_bounded rb v = omega (arith, (available-contents rb v).0, available_read-le rb v)

Move-InOrder : (w : ℕ) {c d : Channel} → Move c d → InOrder w c → InOrder w d
Move-InOrder w (reads c upgrade t r r' rb' xs k p e g) o =
    let (t₁, r₁, rb₁, e₁, got, rest, v, _, same, _) =
      read_slice-ReadSlice upgrade w r c.rb o.valid k o.write_end p in
    let both : returns (t, r', rb') ≡ returns (t₁, r₁, rb₁) = sym e ∙ e₁ in
    let ring : rb₁ ≡ rb' = cc both in
    let same_reader : r' ≡ r₁ = cc both in
    let reader : r'.got ≡ r₁.got = ap (λ (x : Reader). x.got) same_reader in
    let moved : xs ≡ take r.left (contents c.rb) =
      append_cancel_left r.got xs (take r.left (contents c.rb)) (sym g ∙ reader ∙ got) in
    record {
      kept = o.kept ∙ rw (← ring, moved, rest, append_assoc, take-append-drop) refl;
      bounded = contents_bounded rb' (subst IsValid ring v);
      valid = subst IsValid ring v;
      write_end = ap (λ (x : PipeRingBuffer). x.write_end) (sym ring) ∙ same ∙ o.write_end;
    }
Move-InOrder w (writes c t x x' rb' xs k p e g) o =
    let (t₁, x₁, rb₁, e₁, pushed, rest, v, _, same, _) =
      write_slice-WriteSlice x c.rb o.valid k p in
    let both : returns (t, x', rb') ≡ returns (t₁, x₁, rb₁) = sym e ∙ e₁ in
    let ring : rb₁ ≡ rb' = cc both in
    let same_writer : x' ≡ x₁ = cc both in
    let writer : x'.rest ≡ x₁.rest = ap (λ (y : Writer). y.rest) same_writer in
    let moved : xs ≡ take (room c.rb) x.rest =
      append_cancel_right xs (take (room c.rb) x.rest) x'.rest (
        sym g
        ∙ sym (take-append-drop (room c.rb) x.rest)
        ∙ ap (λ ys. take (room c.rb) x.rest ++ ys) (sym (writer ∙ rest))) in
    record {
      kept = rw (← ring, moved, pushed, o.kept, append_assoc) refl;
      bounded = contents_bounded rb' (subst IsValid ring v);
      valid = subst IsValid ring v;
      write_end = ap (λ (y : PipeRingBuffer). y.write_end) (sym ring) ∙ same ∙ o.write_end;
    }

Reach-InOrder : (w : ℕ) {c d : Channel} → InOrder w c → Reach c d → InOrder w d
Reach-InOrder w o here = o
Reach-InOrder w o (next r m) = Move-InOrder w m (Reach-InOrder w o r)

-- Whatever readers and writers do to a pipe from its making on, in whatever order they run and
-- whichever write ends are closed: what was sent is what was received, followed by what is in the
-- ring, byte by byte and in order; the ring holds 32 bytes at most and stays valid.
pub Reach-opened : (w : ℕ) {c : Channel} → Reach (opened w) c → InOrder w c
unfolding opened make_pipe
Reach-opened w r =
    Reach-InOrder w
      (record {
        kept = sym (make_pipe-IsValid w).1;
        bounded = contents_bounded (make_pipe w) (make_pipe-IsValid w).0;
        valid = (make_pipe-IsValid w).0;
        write_end = refl;
      })
      r
