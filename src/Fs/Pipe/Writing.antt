-- ===== src/Fs/Pipe/Writing.antt =====
-- What a round of `Pipe::write` moves from the user's buffer to the ring.
use rcore_os.Prelude.{
  ℕ, zero, suc, ◌+◌, ◌≤◌, ◌<◌, ◌^◌, ◌≡◌, ◌≢◌, inl, inr, refl, ap, sym, ◌∙◌, List, [], ◌∷◌, ◌++◌,
  append_assoc, append-nil, ◌==◌, add_usize, returns, arith, Bool-cases, length, eq-nil_of_length,
}
use rcore_os.Fs.Pipe.{PipeRingBuffer, available_read, Turn, done, yields, again, Writer, write_loop}
use rcore_os.Fs.Pipe.Queue.{IsValid, contents, write_byte-pushes}

-- A writer's counters agree with its iterator.
pub record Tallies (w : Writer) : Type 0 where
  pub total : w.already_write + length w.rest ≡ w.want_to_write
  pub fits : w.want_to_write < 2 ^ 64

-- A writer `w` has moved bytes from the front of its rest behind those in `rb`, and so become `w'`,
-- leaving `rb'`.
pub record Writes (w : Writer) (rb : PipeRingBuffer) (w' : Writer) (rb' : PipeRingBuffer)
    : Type 0 where
  pub put : List ℕ
  pub sent : w.rest ≡ put ++ w'.rest
  pub pushed : contents rb' ≡ contents rb ++ put
  pub valid : IsValid rb'
  pub counts : Tallies w'
  pub same_want : w'.want_to_write ≡ w.want_to_write
  pub same_end : rb'.write_end ≡ rb.write_end

abbrev pub WriteEnds : ℕ → ℕ → Turn → Writer → Type 0
WriteEnds n put done w' = w'.rest ≡ []
WriteEnds n put yields w' = ⊥
WriteEnds n put again w' = (put ≡ n) × (w'.rest ≢ [])

Tallies-step :
    (w : Writer) (b : ℕ) (bytes : List ℕ)
    → Tallies (record w { rest = b ∷ bytes })
    → Tallies (record w { already_write = add_usize w.already_write 1; rest = bytes })
Tallies-step w b bytes k = omega (arith, k.total, k.fits)

writes_one :
    (w w' : Writer) (b : ℕ) (bytes : List ℕ) (rb rb₁ rb' : PipeRingBuffer)
    → contents rb₁ ≡ contents rb ++ (b ∷ [])
    → rb₁.write_end ≡ rb.write_end
    → Writes (record w { already_write = add_usize w.already_write 1; rest = bytes }) rb₁ w' rb'
    → Writes (record w { rest = b ∷ bytes }) rb w' rb'
writes_one w w' b bytes rb rb₁ rb' e h m = record {
  put = b ∷ m.put;
  sent = ap (λ xs. b ∷ xs) m.sent;
  pushed = m.pushed ∙ rw (e, append_assoc) refl;
  valid = m.valid;
  counts = m.counts;
  same_want = m.same_want;
  same_end = m.same_end ∙ h;
}

pub writes_none : (w : Writer) (rb : PipeRingBuffer) → IsValid rb → Tallies w → Writes w rb w rb
writes_none w rb v k = record {
  put = [];
  sent = refl;
  pushed = sym (append-nil (contents rb));
  valid = v;
  counts = k;
  same_want = refl;
  same_end = refl;
}

longer :
    (n : ℕ) (t : Turn) (w' : Writer) (k : ℕ) → WriteEnds n k t w' → WriteEnds (suc n) (suc k) t w'
longer n done w' k h = h
longer n yields w' k h = h
longer n again w' k h = (omega arith, h.1)

pub write_loop-Writes :
    (n : ℕ) (w : Writer) (bytes : List ℕ) (rb : PipeRingBuffer)
    → IsValid rb
    → Tallies (record w { rest = bytes })
    → available_read rb + n ≤ 32
    → bytes ≢ []
    → (t : Turn) × (w' : Writer) × (rb' : PipeRingBuffer) × (write_loop n w bytes rb
        ≡ returns (t, w', rb'))
      × (m : Writes (record w { rest = bytes }) rb w' rb') × WriteEnds n (length m.put) t w'
unfolding write_loop writes_one writes_none
write_loop-Writes zero w bytes rb v k h p = (
  again,
  record w { rest = bytes },
  rb,
  refl,
  writes_none (record w { rest = bytes }) rb v k,
  (refl, p),
)
write_loop-Writes (suc n) w [] rb v k h p = absurd (p refl)
write_loop-Writes (suc n) w (b ∷ bytes) rb v k h p =
    let (rb₁, e, pushed, v₁, avail, same) = write_byte-pushes rb b v (omega arith) in
    let w₁ : Writer = record w { already_write = add_usize w.already_write 1; rest = bytes } in
    let k₁ : Tallies w₁ = Tallies-step w b bytes k in
    elim (Bool-cases (add_usize w.already_write 1 == w.want_to_write)) [
      | inl full ↦ (
        done,
        w₁,
        rb₁,
        rw (e, write_loop, full) refl,
        writes_one w w₁ b bytes rb rb₁ rb₁ pushed same (writes_none w₁ rb₁ v₁ k₁),
        eq-nil_of_length bytes (ground arith),
      )
      | inr more ↦
          let (t, w', rb', e', m, ends) =
            write_loop-Writes n w₁ bytes rb₁ v₁ k₁ (omega arith)
              (λ q. let z : length bytes ≡ 0 = ap length q in absurd (ground arith)) in
          (
            t,
            w',
            rb',
            rw (e, write_loop, more) e',
            writes_one w w' b bytes rb rb₁ rb' pushed same m,
            longer n t w' (length m.put) ends,
          )
    ]
