-- ===== src/Mm/MemorySet/Emptying.antt =====
-- Unmapping the pages of a framed area, one after the other.
use rcore_os.Prelude.{
  ℕ, suc, ◌+◌, ◌^◌, ◌≤◌, ◌<◌, ◌≡◌, ◌⊎◌, refl, sym, ◌∙◌, true, ◌||◌, List, [], ◌∷◌, none, ◌==◌,
  Outcome, returns, arith, inl, inr, mem, length, Distinct, bit_or, Bool-cases,
}
use rcore_os.Mm.FrameAllocator.Free.{is_free}
use rcore_os.Mm.PageTable.{Memory, PageTable, pte_new, flag_v}
use rcore_os.Mm.PageTable.Tree.{Place, outside, IsTree}
use rcore_os.Mm.PageTable.Lookup.{lookup}
use rcore_os.Mm.MemorySet.{MapArea, framed, Frames, get_frame, remove_frame, unmap_one, unmap_from}
use rcore_os.Mm.MemorySet.Filling.{IsSorted, IsBacked}
use rcore_os.Mm.MemorySet.Releasing.{
  Releases, unmap_one-Releases, get_frame-remove_frame, remove_frame-IsSorted,
}

-- What unmapping the pages from `vpn` on, which are backed by the frames `fs`, has to deliver.
pub record Empties (a : MapArea) (t : PageTable) (m : Memory) (place : ℕ → Place) (vpn : ℕ)
    (fs : List ℕ) (o : Outcome (MapArea × Memory)) : Type 0 where
  pub memory : Memory
  pub kept : Frames
  pub is : o ≡ returns (record a { data_frames = kept }, memory)
  pub tree : IsTree t.root_ppn memory place
  pub gone : (p : ℕ) → vpn ≤ p → p < vpn + length fs → lookup t memory p ≡ none
  pub others :
      (p : ℕ) → p < 2 ^ 27 → (p < vpn) ⊎ (vpn + length fs ≤ p) → lookup t memory p ≡ lookup t m p
  pub frees : (x : ℕ) → is_free memory.allocator x ≡ (is_free m.allocator x || mem x fs)
  pub limit : memory.allocator.end ≡ m.allocator.end
  pub untouched : (x k : ℕ) → place x ≡ outside → memory.entries x k ≡ m.entries x k
  pub given_up : (p : ℕ) → vpn ≤ p → p < vpn + length fs → get_frame kept p ≡ none
  pub still_kept :
      (p : ℕ) → (p < vpn) ⊎ (vpn + length fs ≤ p) → get_frame kept p ≡ get_frame a.data_frames p

-- Pages stay backed while others are unmapped.
IsBacked-after :
    (t : PageTable) (m m' : Memory) (place : ℕ → Place) (kept kept' : Frames) (perm vpn : ℕ)
    (fs : List ℕ)
    → vpn + length fs ≤ 2 ^ 27
    → ((p : ℕ) → p < 2 ^ 27 → vpn ≤ p → lookup t m' p ≡ lookup t m p)
    → ((p : ℕ) → vpn ≤ p → get_frame kept' p ≡ get_frame kept p)
    → ((x : ℕ) → mem x fs ≡ true → is_free m'.allocator x ≡ is_free m.allocator x)
    → IsBacked t m place kept perm vpn fs
    → IsBacked t m' place kept' perm vpn fs
IsBacked-after t m m' place kept kept' perm vpn [] small seen same busy b = tt
IsBacked-after t m m' place kept kept' perm vpn (f ∷ fs) small seen same busy b =
    let ((mapped, held, out, used), rest) = b in
    (
      (
        seen vpn (omega arith) (omega arith) ∙ mapped,
        same vpn (omega arith) ∙ held,
        out,
        busy f (ground arith) ∙ used,
      ),
      IsBacked-after t m m' place kept kept' perm (vpn + 1) fs (omega arith)
          (λ p h l. seen p h (omega arith)) (λ p h. same p (omega arith))
          (λ x h. busy x (ground arith)) rest,
    )

unmap_from-suc :
    (n : ℕ) (a a' : MapArea) (t : PageTable) (m m' : Memory) (vpn : ℕ)
    (o : Outcome (MapArea × Memory))
    → unmap_one a t m vpn ≡ returns (a', m')
    → unmap_from n a' t m' (vpn + 1) ≡ o
    → unmap_from (suc n) a t m vpn ≡ o
unfolding unmap_from
unmap_from-suc n a a' t m m' vpn o e r = rw e r

-- The area after the frame of `vpn` was taken out.
abbrev without_page : MapArea → ℕ → MapArea
without_page a vpn = record a { data_frames = remove_frame vpn a.data_frames }

Empties-suc :
    (a : MapArea) (t : PageTable) (m : Memory) (place : ℕ → Place) (vpn f : ℕ) (fs : List ℕ)
    (one : Releases a t m place vpn f (unmap_one a t m vpn))
    → vpn + suc (length fs) ≤ 2 ^ 27
    → IsSorted a.data_frames
    → Empties
        (without_page a vpn)
        t
        one.memory
        place
        (vpn + 1)
        fs
        (unmap_from (length fs) (without_page a vpn) t one.memory (vpn + 1))
    → Empties a t m place vpn (f ∷ fs) (unmap_from (suc (length fs)) a t m vpn)
Empties-suc a t m place vpn f fs one small sorted rest =
    let removed = λ (p : ℕ). get_frame-remove_frame vpn p a.data_frames sorted in
    record {
      memory = rest.memory;
      kept = rest.kept;
      is = unmap_from-suc (length fs) a (without_page a vpn) t m one.memory vpn _ one.is rest.is;
      tree = rest.tree;
      gone = λ p h l. elim (Bool-cases (p == vpn)) [
        | inl e ↦
            let same : vpn ≡ p = ground arith in
            rw (sym same) (rest.others vpn (omega arith) (inl (omega arith)) ∙ one.gone)
        | inr e ↦ rest.gone p (ground arith) (omega arith)
      ];
      others = λ p h o.
          rest.others p h (elim o [ inl b ↦ inl (omega arith) | inr b ↦ inr (omega arith) ])
          ∙ one.others p h (elim o [ inl b ↦ λ e. omega arith | inr b ↦ λ e. omega arith ]);
      frees = λ x. ground (arith, rest.frees x, one.frees x);
      limit = rest.limit ∙ one.limit;
      untouched = λ x k h. rest.untouched x k h ∙ one.untouched x k h;
      given_up = λ p h l. elim (Bool-cases (p == vpn)) [
        | inl e ↦ rest.still_kept p (inl (ground arith)) ∙ removed p ∙ ground arith
        | inr e ↦ rest.given_up p (ground arith) (omega arith)
      ];
      still_kept = λ p o.
          rest.still_kept p (elim o [ inl b ↦ inl (omega arith) | inr b ↦ inr (omega arith) ])
          ∙ removed p
          ∙ elim o [ inl b ↦ ground arith | inr b ↦ ground arith ];
    }

pub unmap_from-Empties :
    (a : MapArea) (t : PageTable) (m : Memory) (place : ℕ → Place) (perm vpn : ℕ) (fs : List ℕ)
    → a.map_type ≡ framed
    → IsSorted a.data_frames
    → IsTree t.root_ppn m place
    → vpn + length fs ≤ 2 ^ 27
    → Distinct fs
    → ((f : ℕ) → mem f fs ≡ true → f < m.allocator.end)
    → IsBacked t m place a.data_frames perm vpn fs
    → Empties a t m place vpn fs (unmap_from (length fs) a t m vpn)
unfolding unmap_from
unmap_from-Empties a t m place perm vpn [] ty sorted tree small d low backed = record {
  memory = m;
  kept = a.data_frames;
  is = refl;
  tree = tree;
  gone = λ p h l. absurd (omega arith);
  others = λ p h o. refl;
  frees = λ x. ground arith;
  limit = refl;
  untouched = λ x k h. refl;
  given_up = λ p h l. absurd (omega arith);
  still_kept = λ p o. refl;
}
unmap_from-Empties a t m place perm vpn (f ∷ fs) ty sorted tree small d low backed =
    let ((mapped, held, out, used), rest) = backed in
    let one =
      unmap_one-Releases a t m place vpn f (pte_new f (bit_or perm flag_v)) ty held tree
        (omega arith) out used (low f (ground arith)) mapped in
    let after = λ (p : ℕ). get_frame-remove_frame vpn p a.data_frames sorted in
    let limit = one.limit in
    Empties-suc a t m place vpn f fs one small sorted (
      unmap_from-Empties (without_page a vpn) t one.memory place perm (vpn + 1) fs ty
        (remove_frame-IsSorted vpn a.data_frames sorted) one.tree (omega arith) d.1
        (λ x h. let below = low x (ground arith) in omega arith)
        (IsBacked-after t m one.memory place a.data_frames (remove_frame vpn a.data_frames) perm
          (vpn + 1) fs (omega arith) (λ p h l. one.others p h (λ e. omega arith))
          (λ p h. after p ∙ ground arith) (λ x h. ground (arith, one.frees x, d.0)) rest))
