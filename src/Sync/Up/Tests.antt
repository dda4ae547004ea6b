-- ===== src/Sync/Up/Tests.antt =====
-- Two cells accessed one in the other, from a state with interrupts.
use rcore_os.Prelude.{◌≡◌, refl, true, returns, arith}
use rcore_os.Sync.Up.{Masks, new, enter, exit, set_borrowed, exclusive_access, drop_ref_mut}
use rcore_os.Sync.Up.Masking.{Reach, start, accesses, ends, IsMasked, Reach-IsMasked}

abbrev first_access : Masks
first_access = set_borrowed 1 true (enter (new true))

abbrev second_access : Masks
second_access = set_borrowed 2 true (enter first_access)

access_first : exclusive_access 1 (new true) ≡ returns first_access
unfolding exclusive_access enter new
access_first = refl

access_second : exclusive_access 2 first_access ≡ returns second_access
unfolding exclusive_access enter new
access_second = refl

nested : Reach true (drop_ref_mut 2 second_access) 1
nested = ends 2 1 second_access (
    accesses 2 1 first_access second_access
      (accesses 1 0 (new true) first_access start (omega arith) access_first) (omega arith)
      access_second)

Reach-IsMasked_example : IsMasked true (drop_ref_mut 2 second_access) 1
Reach-IsMasked_example = Reach-IsMasked true nested

both_ended : (drop_ref_mut 1 (drop_ref_mut 2 second_access)).sie ≡ true
unfolding drop_ref_mut exit enter new
both_ended = refl
