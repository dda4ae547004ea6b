-- ===== src/Mm/PageTable/Extends.antt =====
-- What a change of tables leaves alone: frames in use, the pages of other owners, and all free frames
-- but a few.
use rcore_os.Prelude.{
  ℕ, ◌≡◌, ◌≢◌, refl, sym, ◌∙◌, true, false, List, [], ◌++◌, mem, mem-append, arith,
}
use rcore_os.Mm.FrameAllocator.Free.{is_free}
use rcore_os.Mm.PageTable.{Memory}
use rcore_os.Mm.PageTable.Tree.{Place, outside}

-- `taken` lists the frames that may not be free any more.
pub record Extends (m : Memory) (place : ℕ → Place) (m' : Memory) (place' : ℕ → Place)
    (taken : List ℕ) : Type 0 where
  pub limit : m'.allocator.end ≡ m.allocator.end
  pub busy : (x : ℕ) → is_free m.allocator x ≡ false → is_free m'.allocator x ≡ false
  pub spare :
      (x : ℕ) → is_free m.allocator x ≡ true → mem x taken ≡ false → is_free m'.allocator x ≡ true
  pub kept : (x : ℕ) → place x ≢ outside → place' x ≡ place x
  pub stays : (x : ℕ) → is_free m.allocator x ≡ false → place' x ≡ place x
  pub untouched :
      (x k : ℕ) → is_free m.allocator x ≡ false → place x ≡ outside → m'.entries x k ≡ m.entries x k

pub Extends-refl : (m : Memory) (place : ℕ → Place) → Extends m place m place []
Extends-refl m place = record {
  limit = refl;
  busy = λ x h. h;
  spare = λ x h n. h;
  kept = λ x h. refl;
  stays = λ x h. refl;
  untouched = λ x k h o. refl;
}

pub Extends-trans :
    (m m' m'' : Memory) (place place' place'' : ℕ → Place) (xs ys : List ℕ)
    → Extends m place m' place' xs
    → Extends m' place' m'' place'' ys
    → Extends m place m'' place'' (xs ++ ys)
Extends-trans m m' m'' place place' place'' xs ys a b = record {
  limit = b.limit ∙ a.limit;
  busy = λ x h. b.busy x (a.busy x h);
  spare = λ x h n.
      b.spare x (a.spare x h (ground (arith, mem-append x xs ys)))
        (ground (arith, mem-append x xs ys));
  kept = λ x h. b.kept x (λ e. h (sym (a.kept x h) ∙ e)) ∙ a.kept x h;
  stays = λ x h. b.stays x (a.busy x h) ∙ a.stays x h;
  untouched = λ x k h o. b.untouched x k (a.busy x h) (a.stays x h ∙ o) ∙ a.untouched x k h o;
}
