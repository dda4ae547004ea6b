-- ===== src/Mm/FrameAllocator/Trackers/Held.antt =====
-- Taking pages and giving them back keep each page with one tracker at most.
use rcore_os.Prelude.{
  ℕ, ◌<◌, ◌≡◌, refl, sym, subst, true, false, ◌||◌, ◌&&◌, not, List, [], ◌∷◌, Option, ◌==◌, mem,
  Distinct, arith, inl, inr, Bool-cases,
}
use rcore_os.Mm.FrameAllocator.{StackFrameAllocator}
use rcore_os.Mm.FrameAllocator.Free.{is_free, IsValid, Allocates, exhausted, hands_out, mem-below}
use rcore_os.Mm.FrameAllocator.Trackers.{World, tracker, trackers, track_one, remove, Owned}

free-inside : (a : StackFrameAllocator) (n : ℕ) → IsValid a → is_free a n ≡ true → n < a.end
free-inside a n v h = ground (arith, mem-below a.recycled n a.current v.below)

tracker-Owned :
    (w : World) (n : ℕ) (b : StackFrameAllocator)
    → Owned w
    → is_free w.allocator n ≡ true
    → ((m : ℕ) → is_free b m ≡ (is_free w.allocator m && not (n == m)))
    → IsValid b
    → b.end ≡ w.allocator.end
    → Owned (tracker (record w { allocator = b }) n)
unfolding tracker
tracker-Owned w n b o free after v e = record {
  valid = v;
  distinct = (ground (arith, o.used n), o.distinct);
  used = λ m. ground (arith, o.used m, after m);
  inside = λ m. ground (arith, o.inside m, free-inside w.allocator n o.valid free);
}

pub take_one-Owned :
    (w : World) (r : Option ℕ × StackFrameAllocator)
    → Owned w
    → Allocates w.allocator r
    → Owned (track_one w r).1 × ((track_one w r).1.allocator.end ≡ w.allocator.end)
unfolding track_one tracker
take_one-Owned w r o (exhausted _) =
    (record { valid = o.valid; distinct = o.distinct; used = o.used; inside = o.inside }, refl)
take_one-Owned w r o (hands_out n b free after v e) = (tracker-Owned w n b o free after v e, e)

pub allocator-trackers : (w : World) (fs : List ℕ) → (trackers w fs).allocator ≡ w.allocator
unfolding trackers tracker
allocator-trackers w [] = refl
allocator-trackers w (f ∷ fs) = allocator-trackers (tracker w f) fs

mem-trackers :
    (w : World) (fs : List ℕ) (m : ℕ) → mem m (trackers w fs).held ≡ (mem m fs || mem m w.held)
unfolding trackers tracker
mem-trackers w [] m = refl
mem-trackers w (f ∷ fs) m = ground (arith, mem-trackers (tracker w f) fs m)

Distinct-trackers :
    (w : World) (fs : List ℕ)
    → Distinct fs
    → Distinct w.held
    → ((m : ℕ) → mem m fs ≡ true → mem m w.held ≡ false)
    → Distinct (trackers w fs).held
unfolding trackers tracker
Distinct-trackers w [] d k apart = k
Distinct-trackers w (f ∷ fs) d k apart =
    Distinct-trackers (tracker w f) fs d.1 (ground (arith, apart f), k)
      (λ m. ground (arith, apart m, d.0))

pub trackers-Owned :
    (w : World) (fs : List ℕ) (b : StackFrameAllocator)
    → Owned w
    → Distinct fs
    → ((m : ℕ) → mem m fs ≡ true → is_free w.allocator m ≡ true)
    → ((m : ℕ) → is_free b m ≡ (is_free w.allocator m && not (mem m fs)))
    → IsValid b
    → b.end ≡ w.allocator.end
    → Owned (trackers (record w { allocator = b }) fs)
trackers-Owned w fs b o d free after v e = record {
  valid = subst IsValid (sym same) v;
  distinct = Distinct-trackers w' fs d o.distinct (λ m. ground (arith, free m, o.used m));
  used = λ m. rw same (ground (arith, mem-trackers w' fs m, free m, o.used m, after m));
  inside = λ m.
      rw same (
        ground
          (arith, mem-trackers w' fs m, free m, o.inside m, free-inside w.allocator m o.valid));
}
  where
    w' : World
    w' = record w { allocator = b }

    same : (trackers w' fs).allocator ≡ b
    same = allocator-trackers w' fs

pub mem-remove :
    (xs : List ℕ) (n m : ℕ) → Distinct xs → mem m (remove n xs) ≡ (mem m xs && not (n == m))
mem-remove [] n m d = refl
mem-remove (x ∷ xs) n m d = ground (arith, mem-remove xs n m d.1, d.0)

pub Distinct-remove : (xs : List ℕ) (n : ℕ) → Distinct xs → Distinct (remove n xs)
Distinct-remove [] n d = tt
Distinct-remove (x ∷ xs) n d = elim (Bool-cases (x == n)) [
  | inl e ↦ rw e d.1
  | inr e ↦ rw e (ground (arith, mem-remove xs n x d.1, d.0), Distinct-remove xs n d.1)
]
