-- ===== src/Syscall/Sync/Calls.antt =====
-- What the calls on the tables do.
use rcore_os.Prelude.{ℕ, ◌≡◌, refl, Bool}
use rcore_os.Sync.Semaphore as Semaphore
use rcore_os.Sync.Semaphore.{Semaphore}
use rcore_os.Sync.Condvar as Condvar
use rcore_os.Syscall.Sync.{
  Tables, new_mutex, sys_mutex_create, sys_semaphore_create, sys_condvar_create,
}
use rcore_os.Syscall.Sync.Slots.{Adds, add_slot-Adds}

-- The calls that create return the first id under which there was nothing, and put a new object
-- there: a mutex of the kind that is asked for, a semaphore with the count, or a condition variable.
-- Every other id stands for the object that it stood for, and the other two tables are as before.
pub creates-Adds :
    (s : Tables) (is_blocking : Bool) (res_count : ℕ)
    → (Adds s.mutex_list
          (new_mutex is_blocking)
          (sys_mutex_create is_blocking s).0
          (sys_mutex_create is_blocking s).1.mutex_list
        × ((sys_mutex_create is_blocking s).1.semaphore_list ≡ s.semaphore_list)
        × ((sys_mutex_create is_blocking s).1.condvar_list ≡ s.condvar_list))
      × (Adds s.semaphore_list
            (Semaphore.new res_count)
            (sys_semaphore_create res_count s).0
            (sys_semaphore_create res_count s).1.semaphore_list
          × ((sys_semaphore_create res_count s).1.mutex_list ≡ s.mutex_list)
          × ((sys_semaphore_create res_count s).1.condvar_list ≡ s.condvar_list))
      × (Adds s.condvar_list Condvar.new
            (sys_condvar_create s).0
            (sys_condvar_create s).1.condvar_list
          × ((sys_condvar_create s).1.mutex_list ≡ s.mutex_list)
          × ((sys_condvar_create s).1.semaphore_list ≡ s.semaphore_list))
unfolding sys_mutex_create sys_semaphore_create sys_condvar_create
creates-Adds s is_blocking res_count = (
  (add_slot-Adds s.mutex_list (new_mutex is_blocking), refl, refl),
  (add_slot-Adds s.semaphore_list (Semaphore.new res_count), refl, refl),
  (add_slot-Adds s.condvar_list Condvar.new, refl, refl),
)
