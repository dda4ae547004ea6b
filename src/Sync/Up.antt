-- ===== src/Sync/Up.antt =====
-- os/src/sync/up.rs: cells whose access masks the interrupts of the processor, and the count of the
-- accesses that are open.
pub mod Masking
mod Tests
use rcore_os.Prelude.{
  ℕ, ◌==◌, Bool, true, false, not, ◌&&◌, if◌then◌else◌, Outcome, returns, panics, ◌>>=◌, ◌>>◌,
  assert, add_usize, sub_usize,
}

-- The bit `sie` of `sstatus`, `IntrMaskingInfo`, and which cells are borrowed.
pub record Masks : Type 0 where
  pub sie : Bool
  pub nested_level : ℕ
  pub sie_before_masking : Bool
  pub borrowed : ℕ → Bool

-- `IntrMaskingInfo::new`, with no cell borrowed and `sie` as it is at the start.
pub new : Bool → Masks
new sie = record { sie = sie; nested_level = 0; sie_before_masking = false; borrowed = λ c. false }

-- `IntrMaskingInfo::enter`
pub enter : Masks → Masks
enter s = record s {
  sie = false;
  sie_before_masking = if s.nested_level == 0 then s.sie else s.sie_before_masking;
  nested_level = add_usize s.nested_level 1;
}

-- `IntrMaskingInfo::exit`
pub exit : Masks → Masks
exit s =
    let level = sub_usize s.nested_level 1 in
    record s {
      nested_level = level;
      sie = if (level == 0) && s.sie_before_masking then true else s.sie;
    }

abbrev pub set_borrowed : ℕ → Bool → Masks → Masks
set_borrowed c b s = record s { borrowed = λ i. if c == i then b else s.borrowed i }

-- `UPIntrFreeCell::exclusive_access` of the cell `c`: a cell that is borrowed panics.
pub exclusive_access : ℕ → Masks → Outcome Masks
exclusive_access c s = do
  let s' = enter s
  assert (not (s'.borrowed c))
  returns (set_borrowed c true s')

-- `UPIntrRefMut::drop`
pub drop_ref_mut : ℕ → Masks → Masks
drop_ref_mut c s = exit (set_borrowed c false s)

-- `UPIntrFreeCell::exclusive_session`, where `f` is what is done with the cell.
pub exclusive_session :
    {V : Type 0} → ℕ → (Masks → Outcome (V × Masks)) → Masks → Outcome (V × Masks)
exclusive_session c f s = do s' ← exclusive_access c s; r ← f s'; returns (r.0, drop_ref_mut c r.1)
