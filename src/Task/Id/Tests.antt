-- ===== src/Task/Id/Tests.antt =====
-- The number allocator and the places of stacks at concrete values.
use rcore_os.Prelude.{refl, [], ◌∷◌, arith}
use rcore_os.Task.Id.{RecycleAllocator}
use rcore_os.Task.Id.InUse.{IsValid}

abbrev three_in_use : RecycleAllocator
three_in_use = record { current = 5; recycled = 1 ∷ 3 ∷ [] }

three_in_use-IsValid : IsValid three_in_use
three_in_use-IsValid = record {
  below = (omega arith, (omega arith, tt));
  distinct = (refl, (refl, tt));
}
