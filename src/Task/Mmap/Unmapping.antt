-- ===== src/Task/Mmap/Unmapping.antt =====
-- `munmap` of a range of memory.
use rcore_os.Prelude.{
  ℕ, zero, suc, ◌+◌, ◌-◌, ◌^◌, ◌≤◌, ◌<◌, ◌≡◌, ◌≢◌, ◌⊎◌, refl, sym, ◌∙◌, ap, subst, Bool, true,
  false, not, ◌||◌, Option, none, some, arith, inl, inr, Bool-cases, Option-cases, Outcome, returns,
  leb, ◌==◌,
}
use rcore_os.Mm.Address.{SimpleRange, page_offset}
use rcore_os.Mm.PageTable.{Memory, PageTable, translate, is_valid, unmap}
use rcore_os.Mm.PageTable.Tree.{Place, outside, IsTree}
use rcore_os.Mm.PageTable.Lookup.{lookup, valid_one}
use rcore_os.Mm.PageTable.Unmapping.{unmap-Unmaps}
use rcore_os.Mm.MemorySet.{pages}
use rcore_os.Task.Mmap.{MapType, memory, Reserve, Process, va_max}
use rcore_os.Task.Mmap.Ranges.{IsPages}
use rcore_os.Task.Mmap.Handlers.{
  refused, done, Result, position_of, remove_at, unmap_entry, unmap_pages, munmap_done, munmap_in,
  munmap_at, munmap_range, sys_munmap,
}

-- What unmapping `n` pages from `vpn` on has to deliver. The frames in use stay in use.
pub record Clears (t : PageTable) (m : Memory) (place : ℕ → Place) (vpn n : ℕ)
    (o : Outcome (Bool × Memory)) : Type 0 where
  pub memory' : Memory
  pub is : o ≡ returns (true, memory')
  pub tree : IsTree t.root_ppn memory' place
  pub gone : (q : ℕ) → vpn ≤ q → q < vpn + n → lookup t memory' q ≡ none
  pub others : (q : ℕ) → q < 2 ^ 27 → (q < vpn) ⊎ (vpn + n ≤ q) → lookup t memory' q ≡ lookup t m q
  pub in_use : memory'.allocator ≡ m.allocator
  pub untouched : (x k : ℕ) → place x ≡ outside → memory'.entries x k ≡ m.entries x k

-- An entry that the walk ends at.
valid_one-some :
    (o : Option ℕ) (bits : ℕ) → valid_one o ≡ some bits → (o ≡ some bits) × (is_valid bits ≡ true)
valid_one-some none bits h = absurd cc
valid_one-some (some pte) bits h = elim (Bool-cases (is_valid pte)) [
  | inl v ↦
      let same : some pte ≡ some bits = rw v at h in
      let eq : pte ≡ bits = cc in (same, ap is_valid (sym eq) ∙ v)
  | inr v ↦ absurd (let bad : none ≡ some bits = rw v at h in cc)
]

unmap_pages-suc :
    (n : ℕ) (t : PageTable) (m m' : Memory) (vpn bits : ℕ)
    → translate t m vpn ≡ some bits
    → is_valid bits ≡ true
    → unmap t m vpn ≡ returns m'
    → unmap_pages (suc n) t m vpn ≡ unmap_pages n t m' (vpn + 1)
unfolding unmap_pages unmap_entry
unmap_pages-suc n t m m' vpn bits e v u = rw (e, v, u) refl

unmap_pages-Clears :
    (n : ℕ) (t : PageTable) (m : Memory) (place : ℕ → Place) (vpn : ℕ)
    → IsTree t.root_ppn m place
    → vpn + n ≤ 2 ^ 27
    → ((q : ℕ) → vpn ≤ q → q < vpn + n → lookup t m q ≢ none)
    → Clears t m place vpn n (unmap_pages n t m vpn)
unfolding unmap_pages
unmap_pages-Clears zero t m place vpn tree small mapped = record {
  memory' = m;
  is = refl;
  tree = tree;
  gone = λ q h l. absurd (omega arith);
  others = λ q h o. refl;
  in_use = refl;
  untouched = λ x k h. refl;
}
unmap_pages-Clears (suc n) t m place vpn tree small mapped = elim (Option-cases (lookup t m vpn)) [
  | inl e ↦ absurd (mapped vpn (omega arith) (omega arith) e)
  | inr (bits, e) ↦
      let (found, v) = valid_one-some (translate t m vpn) bits e in
      let (m', u, (_, tree', gone, others), kept, untouched) =
        (unmap-Unmaps t m place vpn tree (omega arith)).0 bits e in
      let rest = unmap_pages-Clears n t m' place (vpn + 1) tree' (omega arith) (λ q h l is.
        mapped q (omega arith) (omega arith)
          (sym (others q (omega arith) (λ e. omega arith)) ∙ is)) in
      record {
        memory' = rest.memory';
        is = unmap_pages-suc n t m m' vpn bits found v u ∙ rest.is;
        tree = rest.tree;
        gone = λ q h l. elim (Bool-cases (q == vpn)) [
          | inl e ↦
              let same : q ≡ vpn = ground arith in
              ap (lookup t rest.memory') same
              ∙ rest.others vpn (omega arith) (inl (omega arith))
              ∙ gone
          | inr e ↦ rest.gone q (ground arith) (omega arith)
        ];
        others = λ q h o.
            rest.others q h (elim o [ inl b ↦ inl (omega arith) | inr b ↦ inr (omega arith) ])
            ∙ others q h (elim o [ inl b ↦ λ e. omega arith | inr b ↦ λ e. omega arith ]);
        in_use = rest.in_use ∙ kept;
        untouched = λ x k h. rest.untouched x k h ∙ untouched x k h;
      }
]

-- What `munmap` of a reserve has to deliver.
pub record Releases (p : Process) (m : Memory) (place : ℕ → Place) (i : ℕ) (r : SimpleRange)
    (o : Outcome Result) : Type 0 where
  pub memory' : Memory
  pub is : o ≡ returns (done, record p { mmap_mapped = remove_at i p.mmap_mapped }, memory')
  pub cleared : Clears p.memory_set.page_table m place r.l (r.r - r.l) (returns (true, memory'))

munmap_in_lem :
    (ty : MapType) (i : ℕ) (p : Process) (m : Memory) (r : SimpleRange) (u : Bool × Memory)
    → ty ≡ memory
    → unmap_pages (pages r) p.memory_set.page_table m r.l ≡ returns u
    → munmap_in ty i p m r ≡ returns (munmap_done p i u)
unfolding munmap_in
munmap_in_lem ty i p m r u t e = ap (λ t. munmap_in t i p m r) t ∙ rw e refl

sys_munmap_found :
    (p : Process) (m : Memory) (start len i : ℕ) (r : SimpleRange) (v : Reserve)
    → (not (page_offset start == 0) || leb (va_max - len) start) ≡ false
    → munmap_range start len ≡ returns r
    → position_of p.mmap_mapped r ≡ some (i, v)
    → sys_munmap p m start len ≡ munmap_in v.ty i p m r
unfolding sys_munmap munmap_at
sys_munmap_found p m start len i r v ok ranged found = rw (ok, ranged, found) refl

unmap_pages_stops :
    (n : ℕ) (t : PageTable) (m : Memory) (vpn bits : ℕ)
    → 0 < n
    → translate t m vpn ≡ some bits
    → is_valid bits ≡ false
    → unmap_pages n t m vpn ≡ returns (false, m)
unfolding unmap_pages unmap_entry
unmap_pages_stops zero t m vpn bits h e v = absurd (omega arith)
unmap_pages_stops (suc n) t m vpn bits h e v = rw (e, v) refl

-- `munmap` of exactly the range of a reserve of memory all of whose pages are mapped returns 0: the
-- reserve is taken out, none of the pages is mapped any more, and every other page is translated as
-- before. The areas of the address space and the frames in use stay as they are, those of the range too.
-- If the walk of the table for the first page of the range ends at an entry that is not valid, as it
-- may before the first page fault in the range, `munmap` returns -1 and changes nothing.
pub sys_munmap-Releases :
    (p : Process) (m : Memory) (place : ℕ → Place) (start len i : ℕ) (r : SimpleRange) (v : Reserve)
    → IsTree p.memory_set.page_table.root_ppn m place
    → IsPages r
    → page_offset start ≡ 0
    → start < va_max - len
    → munmap_range start len ≡ returns r
    → position_of p.mmap_mapped r ≡ some (i, v)
    → v.ty ≡ memory
    → (((q : ℕ) → r.l ≤ q → q < r.r → lookup p.memory_set.page_table m q ≢ none)
        → Releases p m place i r (sys_munmap p m start len))
      × ((bits : ℕ)
          → r.l < r.r
          → translate p.memory_set.page_table m r.l ≡ some bits
          → is_valid bits ≡ false
          → sys_munmap p m start len ≡ returns (refused, p, m))
unfolding munmap_done
sys_munmap-Releases p m place start len i r v tree pages_ok aligned below ranged found ty =
    let order = pages_ok.order in
    let small = pages_ok.small in
    let ok : (not (page_offset start == 0) || leb (va_max - len) start) ≡ false = ground arith in
    let here = sys_munmap_found p m start len i r v ok ranged found in
    (
      λ mapped.
          let c =
            unmap_pages-Clears (r.r - r.l) p.memory_set.page_table m place r.l tree (omega arith)
              (λ q h l. mapped q h (omega arith)) in
          record {
            memory' = c.memory';
            is = here ∙ munmap_in_lem v.ty i p m r (true, c.memory') ty c.is;
            cleared = subst (Clears p.memory_set.page_table m place r.l (r.r - r.l)) c.is c;
          },
      λ bits some_page e invalid.
          here
          ∙ munmap_in_lem v.ty i p m r (false, m) ty
              (unmap_pages_stops (r.r - r.l) p.memory_set.page_table m r.l bits (omega arith) e
                invalid),
    )
