-- ===== src/Mm/MemorySet/Filling.antt =====
-- Mapping the pages of a framed area, each to a frame of its own.
use rcore_os.Prelude.{
  ℕ, zero, suc, ◌+◌, ◌*◌, ◌^◌, ◌≤◌, ◌<◌, ◌≡◌, ◌⊎◌, refl, ap, sym, subst, ◌∙◌, true, false, List, [],
  ◌∷◌, ◌++◌, none, some, if◌then◌else◌, ltb, ◌==◌, mem, length, length-append, Distinct, All,
  Outcome, returns, bit_or, arith, Bool-cases, inl, inr,
}
use rcore_os.Mm.FrameAllocator.Free.{is_free}
use rcore_os.Mm.PageTable.{Memory, PageTable, pte_new, flag_v}
use rcore_os.Mm.PageTable.Tree.{Place, outside, IsTree}
use rcore_os.Mm.PageTable.Extends.{Extends, Extends-refl, Extends-trans}
use rcore_os.Mm.PageTable.Lookup.{lookup}
use rcore_os.Mm.MemorySet.{
  MapArea, framed, Frames, get_frame, insert_frame, map_one, map_from, Mapping,
}
use rcore_os.Mm.MemorySet.Supply.{Supply, Supply-le, Supply-without}
use rcore_os.Mm.MemorySet.Framed.{MapsOne, map_one-MapsOne}

pub get_frame-insert_frame :
    (k v j : ℕ) (es : Frames)
    → get_frame (insert_frame k v es) j ≡ (if k == j then some v else get_frame es j)
get_frame-insert_frame k v j [] = refl
get_frame-insert_frame k v j (e ∷ es) = ground (arith, get_frame-insert_frame k v j es)

-- The pages of a map ascend.
abbrev pub IsSorted : Frames → Type 0
IsSorted [] = Unit
IsSorted (e ∷ es) = All (λ x. e.0 < x.0) es × IsSorted es

insert_frame-All :
    (c k v : ℕ) (es : Frames)
    → c < k
    → All (λ x. c < x.0) es
    → All (λ x. c < x.0) (insert_frame k v es)
insert_frame-All c k v [] h a = (h, tt)
insert_frame-All c k v (e ∷ es) h a = elim (Bool-cases (ltb k e.0)) [
  | inl before ↦ rw before (h, a)
  | inr other ↦ elim (Bool-cases (e.0 == k)) [
    | inl same ↦ rw (other, same) (h, a.1)
    | inr after ↦ rw (other, after) (a.0, insert_frame-All c k v es h a.1)
  ]
]

All-lower : (c d : ℕ) (es : Frames) → c ≤ d → All (λ x. d < x.0) es → All (λ x. c < x.0) es
All-lower c d [] h a = tt
All-lower c d (e ∷ es) h a = (omega (arith, a.0), All-lower c d es h a.1)

insert_frame-IsSorted : (k v : ℕ) (es : Frames) → IsSorted es → IsSorted (insert_frame k v es)
insert_frame-IsSorted k v [] s = (tt, tt)
insert_frame-IsSorted k v (e ∷ es) s = elim (Bool-cases (ltb k e.0)) [
  | inl before ↦
      let less : k < e.0 = ground arith in
      rw before ((less, All-lower k e.0 es (omega arith) s.0), (s.0, s.1))
  | inr other ↦ elim (Bool-cases (e.0 == k)) [
    | inl same ↦
        let eq : e.0 ≡ k = ground arith in
        rw (other, same) (subst (λ c. All (λ x. c < x.0) es) eq s.0, s.1)
    | inr after ↦
        let less : e.0 < k = ground arith in
        rw (other, after) (insert_frame-All e.0 k v es less s.0, insert_frame-IsSorted k v es s.1)
  ]
]

-- The pages from `vpn` on are mapped to the frames `fs`, which are outside every table and in use, and
-- which the area keeps under their pages.
abbrev pub IsBacked : PageTable → Memory → (ℕ → Place) → Frames → ℕ → ℕ → List ℕ → Type 0
IsBacked t m place kept perm vpn [] = Unit
IsBacked t m place kept perm vpn (f ∷ fs) =
    ((lookup t m vpn ≡ some (pte_new f (bit_or perm flag_v)))
      × (get_frame kept vpn ≡ some f)
      × (place f ≡ outside)
      × (is_free m.allocator f ≡ false))
    × IsBacked t m place kept perm (vpn + 1) fs

-- What mapping `n` pages from `vpn` on has to deliver.
pub record MapsAll (a : MapArea) (t : PageTable) (m : Memory) (place : ℕ → Place) (vpn n : ℕ)
    (o : Outcome Mapping) : Type 0 where
  pub table : PageTable
  pub memory : Memory
  pub place' : ℕ → Place
  pub kept : Frames
  pub fs : List ℕ
  pub is : o ≡ returns (record a { data_frames = kept }, table, memory)
  pub root_same : table.root_ppn ≡ t.root_ppn
  pub tree : IsTree t.root_ppn memory place'
  pub count : length fs ≡ n
  pub distinct : Distinct fs
  pub fresh : (f : ℕ) → mem f fs ≡ true → is_free m.allocator f ≡ true
  pub backed : IsBacked table memory place' kept a.map_perm vpn fs
  pub blank : (f k : ℕ) → mem f fs ≡ true → memory.entries f k ≡ 0
  pub sorted : IsSorted a.data_frames → IsSorted kept
  pub later : (p : ℕ) → vpn + n ≤ p → get_frame kept p ≡ get_frame a.data_frames p
  pub earlier : (p : ℕ) → p < vpn → get_frame kept p ≡ get_frame a.data_frames p
  pub others :
      (p : ℕ) → p < 2 ^ 27 → (p < vpn) ⊎ (vpn + n ≤ p) → lookup table memory p ≡ lookup t m p
  pub taken : List ℕ
  pub threes : length taken ≡ 3 * n
  pub extends : Extends m place memory place' taken

map_from-suc :
    (n : ℕ) (a a' : MapArea) (t t' : PageTable) (m m' : Memory) (vpn : ℕ) (o : Outcome Mapping)
    → map_one a t m vpn ≡ returns (a', t', m')
    → map_from n a' t' m' (vpn + 1) ≡ o
    → map_from (suc n) a t m vpn ≡ o
unfolding map_from
map_from-suc n a a' t t' m m' vpn o e r = rw e r

pub not_among :
    (f : ℕ) (fs : List ℕ) (m : Memory)
    → is_free m.allocator f ≡ false
    → ((x : ℕ) → mem x fs ≡ true → is_free m.allocator x ≡ true)
    → mem f fs ≡ false
not_among f fs m busy fresh = elim (Bool-cases (mem f fs)) [
  | inl e ↦ let bad : false ≡ true = sym busy ∙ fresh f e in cc
  | inr e ↦ e
]

pub was_free :
    (m m' : Memory) (place place' : ℕ → Place) (taken : List ℕ) (x : ℕ)
    → Extends m place m' place' taken
    → is_free m'.allocator x ≡ true
    → is_free m.allocator x ≡ true
was_free m m' place place' taken x ext h = elim (Bool-cases (is_free m.allocator x)) [
  | inl e ↦ e
  | inr e ↦ let bad : false ≡ true = sym (ext.busy x e) ∙ h in cc
]

-- The area after the page `vpn` has been given the frame `f`.
abbrev held : MapArea → ℕ → ℕ → MapArea
held a vpn f = record a { data_frames = insert_frame vpn f a.data_frames }

MapsAll-suc :
    (n : ℕ) (a : MapArea) (t : PageTable) (m : Memory) (place : ℕ → Place) (vpn : ℕ)
    (one : MapsOne a t m place vpn (map_one a t m vpn))
    → vpn + suc n ≤ 2 ^ 27
    → MapsAll
        (held a vpn one.frame)
        one.table
        one.memory
        one.place'
        (vpn + 1)
        n
        (map_from n (held a vpn one.frame) one.table one.memory (vpn + 1))
    → MapsAll a t m place vpn (suc n) (map_from (suc n) a t m vpn)
MapsAll-suc n a t m place vpn one small rest =
    let f = one.frame in
    let three = one.three in
    let threes = rest.threes in
    record {
      table = rest.table;
      memory = rest.memory;
      place' = rest.place';
      kept = rest.kept;
      fs = f ∷ rest.fs;
      is = map_from-suc n a (held a vpn one.frame) t one.table m one.memory vpn _ one.is rest.is;
      root_same = rest.root_same ∙ one.root_same;
      tree = subst (λ r. IsTree r rest.memory rest.place') one.root_same rest.tree;
      count = ap suc rest.count;
      distinct = (not_among f rest.fs one.memory one.busy rest.fresh, rest.distinct);
      fresh = λ x h. elim (Bool-cases (f == x)) [
        | inl e ↦
            let same : f ≡ x = ground arith in
            subst (λ y. is_free m.allocator y ≡ true) same one.free
        | inr e ↦
            was_free m one.memory place one.place' one.taken x one.extends
              (rest.fresh x (ground arith))
      ];
      backed = (
        (
          rest.others vpn (omega arith) (inl (omega arith)) ∙ one.mapped,
          rest.earlier vpn (omega arith)
              ∙ get_frame-insert_frame vpn f vpn a.data_frames
              ∙ ground arith,
          rest.extends.stays f one.busy ∙ one.apart,
          rest.extends.busy f one.busy,
        ),
        rest.backed,
      );
      blank = λ x k h. elim (Bool-cases (f == x)) [
        | inl e ↦
            let same : f ≡ x = ground arith in
            subst (λ y. rest.memory.entries y k ≡ 0) same
              (rest.extends.untouched f k one.busy one.apart ∙ one.blank k)
        | inr e ↦ rest.blank x k (ground arith)
      ];
      sorted = λ h. rest.sorted (insert_frame-IsSorted vpn f a.data_frames h);
      later = λ p h.
          rest.later p (omega arith) ∙ get_frame-insert_frame vpn f p a.data_frames ∙ ground arith;
      earlier = λ p h.
          rest.earlier p (omega arith)
          ∙ get_frame-insert_frame vpn f p a.data_frames
          ∙ ground arith;
      others = λ p h o.
          rest.others p h (elim o [ inl b ↦ inl (omega arith) | inr b ↦ inr (omega arith) ])
          ∙ one.others p h (elim o [ inl b ↦ λ e. omega arith | inr b ↦ λ e. omega arith ]);
      taken = one.taken ++ rest.taken;
      threes = omega (arith, length-append one.taken rest.taken);
      extends =
          Extends-trans m one.memory rest.memory place one.place' rest.place' one.taken rest.taken
            one.extends rest.extends;
    }

pub map_from-MapsAll :
    (n : ℕ) (a : MapArea) (t : PageTable) (m : Memory) (place : ℕ → Place) (vpn : ℕ)
    → a.map_type ≡ framed
    → a.map_perm < 2 ^ 8
    → ((p : ℕ) → vpn ≤ p → get_frame a.data_frames p ≡ none)
    → IsTree t.root_ppn m place
    → vpn + n ≤ 2 ^ 27
    → Supply m.allocator (3 * n)
    → ((p : ℕ) → vpn ≤ p → p < vpn + n → lookup t m p ≡ none)
    → MapsAll a t m place vpn n (map_from n a t m vpn)
unfolding map_from
map_from-MapsAll zero a t m place vpn ty perm new tree small supply unmapped = record {
  table = t;
  memory = m;
  place' = place;
  kept = a.data_frames;
  fs = [];
  is = refl;
  root_same = refl;
  tree = tree;
  count = refl;
  distinct = tt;
  fresh = λ f h. cc;
  backed = tt;
  blank = λ f k h. cc;
  sorted = λ h. h;
  later = λ p h. refl;
  earlier = λ p h. refl;
  others = λ p h o. refl;
  taken = [];
  threes = omega arith;
  extends = Extends-refl m place;
}
map_from-MapsAll (suc n) a t m place vpn ty perm new tree small supply unmapped =
    let one =
      map_one-MapsOne a t m place vpn ty perm (new vpn (omega arith)) tree (omega arith)
        (Supply-le m.allocator (3 * suc n) 3 (omega arith) supply)
        (unmapped vpn (omega arith) (omega arith)) in
    let three = one.three in
    let f = one.frame in
    let tree' : IsTree one.table.root_ppn one.memory one.place' =
      subst (λ r. IsTree r one.memory one.place') (sym one.root_same) one.tree in
    let rest =
      map_from-MapsAll n (held a vpn f) one.table one.memory one.place' (vpn + 1) ty perm
        (λ p h. get_frame-insert_frame vpn f p a.data_frames ∙ ground (arith, new p (omega arith)))
        tree' (omega arith)
        (Supply-without m.allocator one.memory.allocator one.taken (3 * n)
          (Supply-le m.allocator (3 * suc n) (length one.taken + 3 * n) (omega arith) supply)
          one.extends.spare)
        (λ p h l.
          one.others p (omega arith) (λ e. omega arith) ∙ unmapped p (omega arith) (omega arith)) in
    MapsAll-suc n a t m place vpn one small rest
