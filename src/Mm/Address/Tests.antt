-- ===== src/Mm/Address/Tests.antt =====
-- Addresses and ranges at concrete values.
use rcore_os.Prelude.{refl, ℕ, true, false, ◌≡◌, ◌-◌, some, returns, arith}
use rcore_os.Mm.Address.{SimpleRange, simple_range, collect, contains, overlap_with}
use rcore_os.Mm.Address.Ranges.{overlap_with_iff, collect-simple_range, count_up}

abbrev low : SimpleRange
low = record { l = 2; r = 7 }

abbrev empty_inside : SimpleRange
empty_inside = record { l = 6; r = 6 }

collect-simple_range_example :
    (a : SimpleRange) × (simple_range 3 6 ≡ returns a) × (collect 4 a ≡ some (count_up 3 (6 - 3)))
collect-simple_range_example =
    (collect-simple_range 3 6 4 (omega arith) (omega arith)).0 (omega arith)

overlap_with_iff_example :
    (overlap_with empty_inside low ≡ true) × ((v : ℕ) → contains empty_inside v ≡ false)
overlap_with_iff_example =
    (overlap_with_iff empty_inside low (omega arith) (omega arith)).1 refl (omega arith)
      (omega arith)
