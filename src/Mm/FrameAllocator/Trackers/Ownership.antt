-- ===== src/Mm/FrameAllocator/Trackers/Ownership.antt =====
-- The discipline of frame trackers: no page has two owners, and no drop panics.
use rcore_os.Prelude.{
  ℕ, ◌+◌, ◌^◌, ◌≤◌, ◌<◌, ◌≡◌, ◌≢◌, refl, true, false, List, [], ◌∷◌, Option, some, mem, Outcome,
  returns, arith, inl, inr, Bool-cases, ap, ◌∙◌, dec_le,
}
use rcore_os.Mm.FrameAllocator.{StackFrameAllocator, init, alloc, alloc_more}
use rcore_os.Mm.FrameAllocator.Free.{
  init-IsValid, Allocates, exhausted, hands_out, alloc-Allocates, dealloc-Frees,
  alloc_more-Allocates,
}
use rcore_os.Mm.FrameAllocator.Trackers.{
  World, tracker, track_one, track_all, frame_alloc, frame_alloc_more, remove, drop_tracker, Op,
  takes, takes_more, drops, writes, write, step, run, boot, Owned,
}
use rcore_os.Mm.FrameAllocator.Trackers.Held.{
  take_one-Owned, allocator-trackers, trackers-Owned, mem-remove, Distinct-remove,
}

-- A request for several pages stays below the size at which its count would wrap.
abbrev pub Modest : Op → Type 0
Modest takes = Unit {0}
Modest (takes_more num) = num < 2 ^ 63
Modest (drops ppn) = Unit {0}
Modest (writes ppn off v) = Unit {0}

-- What a step from `w` has to deliver.
abbrev pub Steps : World → Outcome World → Type 0
Steps w r = (w' : World) × (r ≡ returns w') × Owned w' × (w'.allocator.end ≡ w.allocator.end)

drop-Steps : (w : World) (n : ℕ) → Owned w → mem n w.held ≡ true → Steps w (drop_tracker w n)
unfolding drop_tracker
drop-Steps w n o h =
    let (b, e, after, v, same) =
      (dealloc-Frees w.allocator n o.valid).0 (o.used n h) (o.inside n h) in
    (
      record w { allocator = b; held = remove n w.held },
      rw e refl,
      record {
        valid = v;
        distinct = Distinct-remove w.held n o.distinct;
        used = λ m. ground (arith, mem-remove w.held n m o.distinct, after m, o.used m);
        inside = λ m. ground (arith, mem-remove w.held n m o.distinct, o.inside m);
      },
      same,
    )

-- `leb` decides whether the request fits.
take_all-Steps :
    (w : World) (num : ℕ)
    → num < 2 ^ 63
    → Owned w
    → Steps w (returns (track_all w (alloc_more w.allocator num)).1)
unfolding track_all
take_all-Steps w num h o =
    let (full, room) = alloc_more-Allocates w.allocator num o.valid (omega arith) in
    elim (dec_le w.allocator.end (w.allocator.current + num)) [
      | yes le ↦ rw (full le) (
        _,
        refl,
        record { valid = o.valid; distinct = o.distinct; used = o.used; inside = o.inside },
        refl,
      )
      | no gt ↦
          let (fs, b, e, _, d, free, after, v, same) = room (omega arith) in
          rw e (
            _,
            refl,
            trackers-Owned w fs b o d free after v same,
            rw (allocator-trackers (record w { allocator = b }) fs) same,
          )
    ]

take_more-Steps :
    (w : World) (num : ℕ) → num < 2 ^ 63 → Owned w → Steps w (returns (frame_alloc_more w num).1)
unfolding frame_alloc_more
take_more-Steps w num h o = take_all-Steps w num h o

take-Steps : (w : World) → Owned w → Steps w (returns (frame_alloc w).1)
unfolding frame_alloc
take-Steps w o =
    let (owned, same) =
      take_one-Owned w (alloc w.allocator) o (alloc-Allocates w.allocator o.valid) in
    (_, refl, owned, same)

write-Owned : (w : World) (n off v : ℕ) → Owned w → Owned (write w n off v)
write-Owned w n off v o = record {
  valid = o.valid;
  distinct = o.distinct;
  used = o.used;
  inside = o.inside;
}

-- Every operation of the kernel on frames returns, and keeps each page with one owner at most.
pub step-Steps : (w : World) (op : Op) → Modest op → Owned w → Steps w (step w op)
unfolding step
step-Steps w takes s o = take-Steps w o
step-Steps w (takes_more num) s o = take_more-Steps w num s o
step-Steps w (drops n) s o = elim (Bool-cases (mem n w.held)) [
  | inl e ↦ rw e (drop-Steps w n o e)
  | inr e ↦ rw e (w, refl, o, refl)
]
step-Steps w (writes n off v) s o = elim (Bool-cases (mem n w.held)) [
  | inl e ↦ rw e (_, refl, write-Owned w n off v o, refl)
  | inr e ↦ rw e (w, refl, o, refl)
]

take_one-fresh :
    (w w' : World) (n : ℕ) (r : Option ℕ × StackFrameAllocator)
    → Owned w
    → Allocates w.allocator r
    → track_one w r ≡ (some n, w')
    → (mem n w.held ≡ false)
      × (w'.held ≡ n ∷ w.held)
      × ((off : ℕ) → w'.bytes n off ≡ 0)
      × ((p off : ℕ) → p ≢ n → w'.bytes p off ≡ w.bytes p off)
unfolding track_one tracker
take_one-fresh w w' n r o (exhausted _) e = absurd (ground arith)
take_one-fresh w w' n r o (hands_out k b free after v same) e =
    let made : tracker (record w { allocator = b }) k ≡ w' = ap (λ (x : Option ℕ × World). x.1) e in
    let num : k ≡ n = ground arith in
    rw (← made, ← num)
      (ground (arith, o.used k), refl, λ off. ground arith, λ p off ne. ground arith)

-- The requests of a history for several pages are of a size at which no count wraps.
abbrev pub AllModest : List Op → Type 0
AllModest [] = Unit {0}
AllModest (op ∷ ops) = Modest op × AllModest ops

run-Steps : (w : World) (ops : List Op) → AllModest ops → Owned w → Steps w (run w ops)
unfolding run
run-Steps w [] s o = (w, refl, o, refl)
run-Steps w (op ∷ ops) s o =
    let (w₁, e₁, o₁, same₁) = step-Steps w op s.0 o in
    let (w₂, e₂, o₂, same₂) = run-Steps w₁ ops s.1 o₁ in (w₂, rw e₁ e₂, o₂, same₂ ∙ same₁)

-- From boot on, every history of taking, writing and dropping pages runs without a panic (requests
-- for several pages being below 2^63): no page ever has two trackers, no page with a tracker is
-- free in the allocator, and every page with a tracker lies below the end of memory.
pub run-boot-Owned :
    (bytes : ℕ → ℕ → ℕ) (l r : ℕ) (ops : List Op)
    → l ≤ r
    → r ≤ 2 ^ 44
    → AllModest ops
    → (w : World) × (run (boot bytes l r) ops ≡ returns w) × Owned w × (w.allocator.end ≡ r)
unfolding boot init
run-boot-Owned bytes l r ops h k s = run-Steps (boot bytes l r) ops s (record {
  valid = init-IsValid l r h k;
  distinct = tt;
  used = λ n e. cc;
  inside = λ n e. absurd (ground arith);
})

-- A page that `frame_alloc` hands out had no tracker, reads zero everywhere, and gets one tracker;
-- no other page changes a byte.
pub frame_alloc-fresh :
    (w w' : World) (n : ℕ)
    → Owned w
    → frame_alloc w ≡ (some n, w')
    → (mem n w.held ≡ false)
      × (w'.held ≡ n ∷ w.held)
      × ((off : ℕ) → w'.bytes n off ≡ 0)
      × ((p off : ℕ) → p ≢ n → w'.bytes p off ≡ w.bytes p off)
unfolding frame_alloc
frame_alloc-fresh w w' n o e =
    take_one-fresh w w' n (alloc w.allocator) o (alloc-Allocates w.allocator o.valid) e
