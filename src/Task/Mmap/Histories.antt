-- ===== src/Task/Mmap/Histories.antt =====
-- The calls and page faults of a program, in any order.
use rcore_os.Prelude.{
  ◌∙◌, ℕ, zero, suc, ◌-◌, ◌<◌, ◌≡◌, ◌≢◌, sym, subst, Bool, true, false, not, ◌||◌, List, [], ◌∷◌,
  Option, none, some, All, arith, inl, inr, dec_lt, Bool-cases, Outcome, returns, panics, ◌>>=◌,
  leb, ◌==◌,
}
use rcore_os.Mm.Address.{SimpleRange, contains, overlap_with, floor, to_virt_addr, page_offset}
use rcore_os.Mm.PageTable.{Memory, translate}
use rcore_os.Task.Mmap.{MapType, memory, file, Reserve, Process, sys_mmap, valid_entry, va_max}
use rcore_os.Task.Mmap.Handlers.{
  Answer, refused, done, of_file, Result, find_reserve, fault_in, fault_at, handle_page_fault,
  position_of, remove_at, munmap_done, munmap_in, munmap_at, munmap_range, sys_munmap,
}
use rcore_os.Task.Mmap.Ranges.{IsPages, overlap_with-apart}
use rcore_os.Task.Mmap.Reserving.{AreApart, sys_mmap-AreApart}

-- What a handler keeps.
abbrev Keeps : Outcome Result → Type 0
Keeps o =
    (x : Answer) (p' : Process) (m' : Memory) → o ≡ returns (x, p', m') → AreApart p'.mmap_mapped

keeps : (x : Answer) (p : Process) (m : Memory) → AreApart p.mmap_mapped → Keeps (returns (x, p, m))
keeps x p m a y q n e = let same : p ≡ q = cc in subst (λ q. AreApart q.mmap_mapped) same a

Keeps-after :
    {A : Type 0}
    → (o : Outcome A) (k : A → Result) → ((r : A) → AreApart (k r).1.mmap_mapped)
    → Keeps (o >>= λ r. returns (k r))
Keeps-after panics k h x p' m' bad = absurd cc
Keeps-after (returns r) k h x p' m' e = keeps _ _ _ (h r) x p' m' e

fault_in-Keeps :
    (ty : MapType) (v : Reserve) (p : Process) (m : Memory)
    → AreApart p.mmap_mapped
    → Keeps (fault_in ty v p m)
unfolding fault_in
fault_in-Keeps memory v p m a =
    Keeps-after _ (λ r. (done, record p { memory_set = r.0 }, r.1)) (λ r. a)
fault_in-Keeps file v p m a = keeps of_file p m a

fault_at-Keeps :
    (v : Option Reserve) (p : Process) (m : Memory)
    → AreApart p.mmap_mapped
    → Keeps (fault_at v p m)
unfolding fault_at
fault_at-Keeps none p m a = keeps refused p m a
fault_at-Keeps (some v) p m a = fault_in-Keeps v.ty v p m a

handle_page_fault-Keeps :
    (p : Process) (m : Memory) (addr : ℕ)
    → AreApart p.mmap_mapped
    → Keeps (handle_page_fault p m addr)
unfolding handle_page_fault
handle_page_fault-Keeps p m addr a =
    let vpn = floor (to_virt_addr addr) in
    elim (Bool-cases (valid_entry (translate p.memory_set.page_table m vpn))) [
      | inl v ↦ rw v (keeps refused p m a)
      | inr v ↦ rw v (fault_at-Keeps (find_reserve p.mmap_mapped vpn) p m a)
    ]

remove_at-All :
    (P : Reserve → Type 0) (i : ℕ) (vs : List Reserve) → All P vs → All P (remove_at i vs)
remove_at-All P i [] a = tt
remove_at-All P zero (v ∷ vs) a = a.1
remove_at-All P (suc i) (v ∷ vs) a = (a.0, remove_at-All P i vs a.1)

remove_at-AreApart : (i : ℕ) (vs : List Reserve) → AreApart vs → AreApart (remove_at i vs)
remove_at-AreApart i [] a = tt
remove_at-AreApart zero (v ∷ vs) a = a.1
remove_at-AreApart (suc i) (v ∷ vs) a = (
  (a.0.0, remove_at-All (λ w. overlap_with v.range w.range ≡ false) i vs a.0.1),
  remove_at-AreApart i vs a.1,
)

munmap_done-AreApart :
    (p : Process) (i : ℕ) (r : Bool × Memory)
    → AreApart p.mmap_mapped
    → AreApart (munmap_done p i r).1.mmap_mapped
unfolding munmap_done
munmap_done-AreApart p i (true, m) a = remove_at-AreApart i p.mmap_mapped a
munmap_done-AreApart p i (false, m) a = a

munmap_in-Keeps :
    (ty : MapType) (i : ℕ) (p : Process) (m : Memory) (r : SimpleRange)
    → AreApart p.mmap_mapped
    → Keeps (munmap_in ty i p m r)
unfolding munmap_in
munmap_in-Keeps memory i p m r a =
    Keeps-after _ (munmap_done p i) (λ u. munmap_done-AreApart p i u a)
munmap_in-Keeps file i p m r a = keeps of_file p m a

munmap_at-Keeps :
    (v : Option (ℕ × Reserve)) (p : Process) (m : Memory) (r : SimpleRange)
    → AreApart p.mmap_mapped
    → Keeps (munmap_at v p m r)
unfolding munmap_at
munmap_at-Keeps none p m r a = keeps refused p m a
munmap_at-Keeps (some v) p m r a = munmap_in-Keeps v.1.ty v.0 p m r a

sys_munmap-Keeps :
    (p : Process) (m : Memory) (start len : ℕ)
    → AreApart p.mmap_mapped
    → Keeps (sys_munmap p m start len)
unfolding sys_munmap
sys_munmap-Keeps p m start len a =
    elim (Bool-cases (not (page_offset start == 0) || leb (va_max - len) start)) [
      | inl b ↦ rw b (keeps refused p m a)
      | inr b ↦ rw b (ranges (munmap_range start len))
    ]
  where
    ranges :
        (o : Outcome SimpleRange) → Keeps (o >>= λ r. munmap_at (position_of p.mmap_mapped r) p m r)
    ranges panics x p' m' bad = absurd cc
    ranges (returns r) x p' m' e = munmap_at-Keeps (position_of p.mmap_mapped r) p m r a x p' m' e

-- What a process and the memory become by calls of `sys_mmap` and `sys_munmap` and by page faults, in
-- any order. Where a handler comes to a range of a file, the rest of it is taken to change the process
-- and the memory in any way, but for the reserves: a page fault leaves them, and `sys_munmap` takes out
-- the one that it has found.
pub data Reach (p₀ : Process) (m₀ : Memory) : Process → Memory → Type 0 where
  start : Reach p₀ m₀ p₀ m₀
  mmaps :
      (p p' : Process) (m : Memory) (start len prot flags fd offset : ℕ) (x : Option ℕ)
      → Reach p₀ m₀ p m
      → sys_mmap p m start len prot flags fd offset ≡ returns (x, p')
      → Reach p₀ m₀ p' m
  munmaps :
      (p p' : Process) (m m' : Memory) (start len : ℕ) (x : Answer)
      → Reach p₀ m₀ p m
      → x ≢ of_file
      → sys_munmap p m start len ≡ returns (x, p', m')
      → Reach p₀ m₀ p' m'
  faults :
      (p p' : Process) (m m' : Memory) (addr : ℕ) (x : Answer)
      → Reach p₀ m₀ p m
      → x ≢ of_file
      → handle_page_fault p m addr ≡ returns (x, p', m')
      → Reach p₀ m₀ p' m'
  file_munmaps :
      (p p' q : Process) (m m' n : Memory) (start len i : ℕ) (r : SimpleRange) (v : Reserve)
      → Reach p₀ m₀ p m
      → sys_munmap p m start len ≡ returns (of_file, q, n)
      → munmap_range start len ≡ returns r
      → position_of p.mmap_mapped r ≡ some (i, v)
      → p'.mmap_mapped ≡ remove_at i p.mmap_mapped
      → Reach p₀ m₀ p' m'
  file_faults :
      (p p' q : Process) (m m' n : Memory) (addr : ℕ)
      → Reach p₀ m₀ p m
      → handle_page_fault p m addr ≡ returns (of_file, q, n)
      → p'.mmap_mapped ≡ p.mmap_mapped
      → Reach p₀ m₀ p' m'

Reach-AreApart :
    (p₀ : Process) (m₀ : Memory) (p : Process) (m : Memory)
    → AreApart p₀.mmap_mapped
    → Reach p₀ m₀ p m
    → AreApart p.mmap_mapped
Reach-AreApart p₀ m₀ p m a start = a
Reach-AreApart p₀ m₀ _ _ a (mmaps p p' m s len prot flags fd offset x before e) =
    sys_mmap-AreApart p p' m s len prot flags fd offset x (Reach-AreApart p₀ m₀ p m a before) e
Reach-AreApart p₀ m₀ _ _ a (munmaps p p' m m' s len x before _ e) =
    sys_munmap-Keeps p m s len (Reach-AreApart p₀ m₀ p m a before) x p' m' e
Reach-AreApart p₀ m₀ _ _ a (faults p p' m m' addr x before _ e) =
    handle_page_fault-Keeps p m addr (Reach-AreApart p₀ m₀ p m a before) x p' m' e
Reach-AreApart p₀ m₀ _ _ a (file_munmaps p p' q m m' n s len i r v before _ _ _ e) =
    subst AreApart (sym e) (remove_at-AreApart i p.mmap_mapped (Reach-AreApart p₀ m₀ p m a before))
Reach-AreApart p₀ m₀ _ _ a (file_faults p p' q m m' n addr before _ e) =
    subst AreApart (sym e) (Reach-AreApart p₀ m₀ p m a before)

-- The reserve at a place of the list.
abbrev pub reserve_at : List Reserve → ℕ → Option Reserve
reserve_at [] i = none
reserve_at (v ∷ vs) zero = some v
reserve_at (v ∷ vs) (suc i) = reserve_at vs i

All-reserve_at :
    (P : Reserve → Type 0) (vs : List Reserve) (i : ℕ) (v : Reserve)
    → All P vs
    → reserve_at vs i ≡ some v
    → P v
All-reserve_at P [] i v a e = absurd cc
All-reserve_at P (w ∷ vs) zero v a e = let same : w ≡ v = cc in subst P same a.0
All-reserve_at P (w ∷ vs) (suc i) v a e = All-reserve_at P vs i v a.1 e

AreApart-IsPages :
    (vs : List Reserve) (i : ℕ) (v : Reserve)
    → AreApart vs
    → reserve_at vs i ≡ some v
    → IsPages v.range
AreApart-IsPages [] i v a e = absurd cc
AreApart-IsPages (w ∷ vs) zero v a e =
    let same : w ≡ v = cc in subst (λ v. IsPages v.range) same a.0.0
AreApart-IsPages (w ∷ vs) (suc i) v a e = AreApart-IsPages vs i v a.1 e

reserves_apart :
    (vs : List Reserve) (i j : ℕ) (v w : Reserve) (vpn : ℕ)
    → AreApart vs
    → i < j
    → reserve_at vs i ≡ some v
    → reserve_at vs j ≡ some w
    → contains v.range vpn ≡ true
    → contains w.range vpn ≡ false
reserves_apart [] i j v w vpn a l e f c = absurd cc
reserves_apart (u ∷ vs) i zero v w vpn a l e f c = absurd (omega arith)
reserves_apart (u ∷ vs) zero (suc j) v w vpn a l e f c =
    let same : u ≡ v = cc in
    let apart = All-reserve_at (λ w. overlap_with u.range w.range ≡ false) vs j w a.0.1 f in
    overlap_with-apart v.range w.range vpn (subst (λ v. IsPages v.range) same a.0.0)
      (AreApart-IsPages vs j w a.1 f) (subst (λ v. overlap_with v.range w.range ≡ false) same apart)
      c
reserves_apart (u ∷ vs) (suc i) (suc j) v w vpn a l e f c =
    reserves_apart vs i j v w vpn a.1 (omega arith) e f c

-- Of two different places, in either order.
reserves_disjoint :
    (vs : List Reserve) (i j : ℕ) (v w : Reserve) (vpn : ℕ)
    → AreApart vs
    → j ≢ i
    → reserve_at vs i ≡ some v
    → reserve_at vs j ≡ some w
    → contains v.range vpn ≡ true
    → contains w.range vpn ≡ false
reserves_disjoint vs i j v w vpn a ne e f c = elim (dec_lt i j) [
  | yes before ↦ reserves_apart vs i j v w vpn a before e f c
  | no after ↦ elim (Bool-cases (contains w.range vpn)) [
    | inl inside ↦
        let outside : contains v.range vpn ≡ false =
          reserves_apart vs j i w v vpn a (omega arith) f e inside in
        let bad : true ≡ false = sym c ∙ outside in cc
    | inr out ↦ out
  ]
]

-- From a process with no reserves on, after any calls of `mmap` and `munmap` and page faults, failed ones
-- and those in ranges of files included, in any order: each reserve that the process has then is a
-- range of pages of virtual memory, whose end is not before its start, and no page of it is in another
-- reserve. What the handlers do to a range of a file after they have found it may change the address
-- space, the mappings of files and the memory in any way.
pub Reach-reserves_apart :
    (p₀ p : Process) (m₀ m : Memory) (i : ℕ) (v : Reserve)
    → p₀.mmap_mapped ≡ []
    → Reach p₀ m₀ p m
    → reserve_at p.mmap_mapped i ≡ some v
    → IsPages v.range
      × ((j : ℕ) (w : Reserve) (vpn : ℕ)
          → j ≢ i
          → reserve_at p.mmap_mapped j ≡ some w
          → contains v.range vpn ≡ true
          → contains w.range vpn ≡ false)
Reach-reserves_apart p₀ p m₀ m i v none_yet r e =
    let a = Reach-AreApart p₀ m₀ p m (subst AreApart (sym none_yet) tt) r in
    (
      AreApart-IsPages p.mmap_mapped i v a e,
      λ j w vpn ne f c. reserves_disjoint p.mmap_mapped i j v w vpn a ne e f c,
    )
