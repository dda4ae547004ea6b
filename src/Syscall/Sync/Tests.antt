-- ===== src/Syscall/Sync/Tests.antt =====
-- A process with one semaphore that is left of two.
use rcore_os.Prelude.{◌≡◌, true, [], ◌∷◌, none, some}
use rcore_os.Task.Scheduler.{Kernel, ready}
use rcore_os.Sync.Semaphore as Semaphore
use rcore_os.Sync.Semaphore.{Semaphore}
use rcore_os.Sync.Condvar as Condvar
use rcore_os.Syscall.Sync.{
  Tables, new_mutex, sys_mutex_create, sys_semaphore_create, sys_condvar_create,
}
use rcore_os.Syscall.Sync.Slots.{Adds}
use rcore_os.Syscall.Sync.Calls.{creates-Adds}

abbrev two : Semaphore
two = record { count = 2; wait_queue = [] }

abbrev tables : Tables
tables = record { mutex_list = []; semaphore_list = none ∷ some two ∷ []; condvar_list = [] }

abbrev idle : Kernel
idle = record { ready_queue = 5 ∷ []; current = some 4; task_status = λ t. ready }

creates-Adds_example :
    (Adds tables.mutex_list
        (new_mutex true)
        (sys_mutex_create true tables).0
        (sys_mutex_create true tables).1.mutex_list
      × ((sys_mutex_create true tables).1.semaphore_list ≡ tables.semaphore_list)
      × ((sys_mutex_create true tables).1.condvar_list ≡ tables.condvar_list))
    × (Adds tables.semaphore_list
          (Semaphore.new 3)
          (sys_semaphore_create 3 tables).0
          (sys_semaphore_create 3 tables).1.semaphore_list
        × ((sys_semaphore_create 3 tables).1.mutex_list ≡ tables.mutex_list)
        × ((sys_semaphore_create 3 tables).1.condvar_list ≡ tables.condvar_list))
    × (Adds tables.condvar_list Condvar.new
          (sys_condvar_create tables).0
          (sys_condvar_create tables).1.condvar_list
        × ((sys_condvar_create tables).1.mutex_list ≡ tables.mutex_list)
        × ((sys_condvar_create tables).1.semaphore_list ≡ tables.semaphore_list))
creates-Adds_example = creates-Adds tables true 3
