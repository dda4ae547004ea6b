-- ===== src/Task/Mmap/Reserving.antt =====
-- The reserves of a process stay apart, whatever the program maps and unmaps.
use rcore_os.Prelude.{
  ℕ, ◌≡◌, refl, ◌∙◌, subst, Bool, true, false, ◌&&◌, List, [], ◌∷◌, ◌++◌, Option, none, some, All,
  inl, inr, Bool-cases, Outcome, returns, panics, ◌>>=◌, leb,
}
use rcore_os.Mm.Address.{SimpleRange, overlap_with}
use rcore_os.Mm.PageTable.{Memory}
use rcore_os.Task.Mmap.{
  MapType, Reserve, OpenFile, Process, vpn_range_free, map_fixed, start_of, range_of, reserve,
  reserve_memory, reserve_file, do_mmap_memory, do_mmap_file, mmap_open, get_file, may_map,
  sys_mmap, map_file, bad_fixed, bad_prot, permission_of,
}
use rcore_os.Task.Mmap.Ranges.{IsPages, overlap_with_comm, vpn_range_free_iff, range_of-IsPages}

-- Every two reserves are apart, and each is one of pages of virtual memory.
abbrev pub AreApart : List Reserve → Type 0
AreApart [] = Unit
AreApart (v ∷ vs) =
    (IsPages v.range × All (λ w. overlap_with v.range w.range ≡ false) vs) × AreApart vs

All-snoc :
    (P : Reserve → Type 0) (vs : List Reserve) (w : Reserve)
    → All P vs
    → P w
    → All P (vs ++ (w ∷ []))
All-snoc P [] w a b = (b, tt)
All-snoc P (v ∷ vs) w a b = (a.0, All-snoc P vs w a.1 b)

AreApart-snoc :
    (vs : List Reserve) (w : Reserve)
    → AreApart vs
    → IsPages w.range
    → All (λ v. overlap_with w.range v.range ≡ false) vs
    → AreApart (vs ++ (w ∷ []))
AreApart-snoc [] w a p o = ((p, tt), tt)
AreApart-snoc (v ∷ vs) w a p o = (
  (
    a.0.0,
    All-snoc (λ w. overlap_with v.range w.range ≡ false) vs w a.0.1
        (overlap_with_comm v.range w.range ∙ o.0),
  ),
  AreApart-snoc vs w a.1 p o.1,
)

reserve-AreApart :
    (p : Process) (m : Memory) (r : SimpleRange) (perm : ℕ) (ty : MapType)
    → AreApart p.mmap_mapped
    → IsPages r
    → vpn_range_free p m r ≡ true
    → AreApart (reserve p r perm ty).mmap_mapped
unfolding reserve
reserve-AreApart p m r perm ty a pages free =
    AreApart-snoc p.mmap_mapped (record { range = r; perm = perm; ty = ty }) a pages
      ((vpn_range_free_iff p m r pages.order).0 free).0

-- What a call that maps memory keeps.
abbrev Keeps : Outcome (Option ℕ × Process) → Type 0
Keeps o = (x : Option ℕ) (p' : Process) → o ≡ returns (x, p') → AreApart p'.mmap_mapped

keeps : (x : Option ℕ) (p : Process) → AreApart p.mmap_mapped → Keeps (returns (x, p))
keeps x p a y q e = let same : p ≡ q = cc in subst (λ q. AreApart q.mmap_mapped) same a

start_of-AreApart :
    (p : Process) (fixed : Bool) (start len : ℕ)
    → AreApart p.mmap_mapped
    → AreApart (start_of p fixed start len).1.mmap_mapped
unfolding start_of
start_of-AreApart p true start len a = a
start_of-AreApart p false start len a = a

reserve_memory-Keeps :
    (p : Process) (m : Memory) (perm : ℕ) (r : SimpleRange)
    → AreApart p.mmap_mapped
    → IsPages r
    → Keeps (returns (reserve_memory p m perm r))
unfolding reserve_memory
reserve_memory-Keeps p m perm r a pages = elim (Bool-cases (vpn_range_free p m r)) [
  | inl free ↦ rw free (keeps _ _ (reserve-AreApart p m r perm MapType.memory a pages free))
  | inr taken ↦ rw taken (keeps none p a)
]

reserve_file-Keeps :
    (p : Process) (m : Memory) (inode_id start_va len perm offset : ℕ) (r : SimpleRange)
    → AreApart p.mmap_mapped
    → IsPages r
    → Keeps (returns (reserve_file p m inode_id start_va len perm offset r))
unfolding reserve_file
reserve_file-Keeps p m inode_id start_va len perm offset r a pages =
    elim (Bool-cases (vpn_range_free p m r)) [
      | inl free ↦ rw free (keeps _ _ (reserve-AreApart p m r perm MapType.file a pages free))
      | inr taken ↦ rw taken (keeps none p a)
    ]

-- A call that goes on with a range, if it can make one.
range_cases :
    (o : Outcome SimpleRange) (k : SimpleRange → Option ℕ × Process)
    → ((r : SimpleRange) → o ≡ returns r → Keeps (returns (k r)))
    → Keeps (o >>= λ r. returns (k r))
range_cases panics k h x p' bad = absurd (cc)
range_cases (returns r) k h x p' e = h r refl x p' e

with_range-Keeps :
    (start_va len : ℕ) (k : SimpleRange → Option ℕ × Process)
    → ((r : SimpleRange) → IsPages r → Keeps (returns (k r)))
    → Keeps (range_of start_va len >>= λ r. returns (k r))
with_range-Keeps start_va len k h =
    range_cases (range_of start_va len) k (λ r e. h r (range_of-IsPages start_va len r e))

do_mmap_memory-Keeps :
    (p : Process) (m : Memory) (start len perm flags : ℕ)
    → AreApart p.mmap_mapped
    → Keeps (do_mmap_memory p m start len perm flags)
unfolding do_mmap_memory
do_mmap_memory-Keeps p m start len perm flags a =
    let s = start_of p (map_fixed flags) start len in
    with_range-Keeps s.0 len (reserve_memory s.1 m perm) (λ r pages.
      reserve_memory-Keeps s.1 m perm r (start_of-AreApart p (map_fixed flags) start len a) pages)

mmap_open-Keeps :
    (f : Option OpenFile) (p : Process) (m : Memory) (start len perm flags offset : ℕ)
    → AreApart p.mmap_mapped
    → Keeps (mmap_open f p m start len perm flags offset)
unfolding mmap_open
mmap_open-Keeps none p m start len perm flags offset a = keeps none p a
mmap_open-Keeps (some f) p m start len perm flags offset a =
    let s = start_of p (map_fixed flags) start len in
    elim (Bool-cases (may_map f len perm offset)) [
      | inl may ↦ rw may (
          with_range-Keeps s.0 len (reserve_file s.1 m f.inode_id s.0 len perm offset) (λ r pages.
            reserve_file-Keeps s.1 m f.inode_id s.0 len perm offset r
              (start_of-AreApart p (map_fixed flags) start len a) pages))
      | inr not_may ↦ rw not_may (keeps none p a)
    ]

do_mmap_file-Keeps :
    (p : Process) (m : Memory) (start len perm flags fd offset : ℕ)
    → AreApart p.mmap_mapped
    → Keeps (do_mmap_file p m start len perm flags fd offset)
unfolding do_mmap_file
do_mmap_file-Keeps p m start len perm flags fd offset a = elim (Bool-cases (leb fd 2)) [
  | inl std ↦ rw std (keeps none p a)
  | inr other ↦
      rw other (mmap_open-Keeps (get_file p.fd_table fd) p m start len perm flags offset a)
]

pub sys_mmap-AreApart :
    (p p' : Process) (m : Memory) (start len prot flags fd offset : ℕ) (x : Option ℕ)
    → AreApart p.mmap_mapped
    → sys_mmap p m start len prot flags fd offset ≡ returns (x, p')
    → AreApart p'.mmap_mapped
unfolding sys_mmap
sys_mmap-AreApart p p' m start len prot flags fd offset x a =
    let refused = keeps none p a in
    let kept : Keeps (sys_mmap p m start len prot flags fd offset) =
      elim (Bool-cases (map_fixed flags && bad_fixed start len)) [
        | inl b ↦ rw b refused
        | inr b ↦ elim (Bool-cases (bad_prot prot)) [
          | inl c ↦ rw (b, c) refused
          | inr c ↦ elim (Bool-cases (map_file flags)) [
            | inl d ↦
                rw (b, c, d)
                  (do_mmap_file-Keeps p m start len (permission_of prot) flags fd offset a)
            | inr d ↦ rw (b, c, d) (do_mmap_memory-Keeps p m start len (permission_of prot) flags a)
          ]
        ]
      ] in
    kept x p'
