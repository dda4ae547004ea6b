-- ===== src/Task/Scheduler.antt =====
-- os/src/task/manager.rs, processor.rs and mod.rs: the ready queue, the current task, and how a task
-- yields, blocks and wakes. A task is a number, and the status of each is a function of it.
pub mod Queues
use rcore_os.Prelude.{
  ℕ, ◌==◌, List, [], ◌∷◌, ◌++◌, Option, none, some, if◌then◌else◌, Outcome, returns, panics, ◌>>=◌,
  unwrap,
}

pub data TaskStatus : Type 0 where
  ready running blocked : TaskStatus

pub record Kernel : Type 0 where
  pub ready_queue : List ℕ
  pub current : Option ℕ
  pub task_status : ℕ → TaskStatus

unfoldable pub set_status : Kernel → ℕ → TaskStatus → Kernel
set_status k task s = record k { task_status = λ t. if task == t then s else k.task_status t }

-- `TaskManager::add`
unfoldable pub add_task : Kernel → ℕ → Kernel
add_task k task = record k { ready_queue = k.ready_queue ++ (task ∷ []) }

unfoldable pub wakeup_task : Kernel → ℕ → Kernel
unfolding set_status add_task
wakeup_task k task = add_task (set_status k task ready) task

-- `Processor::take_current`, unwrapped.
unfoldable pub take_current_task : Kernel → Outcome (ℕ × Kernel)
take_current_task k = do task ← unwrap k.current; returns (task, record k { current = none })

-- `suspend_current_and_run_next`, up to the switch to the idle loop.
unfoldable pub suspend_current : Kernel → Outcome Kernel
unfolding take_current_task set_status add_task
suspend_current k = do r ← take_current_task k; returns (add_task (set_status r.1 r.0 ready) r.0)

-- `block_current_and_run_next`, likewise.
unfoldable pub block_current : Kernel → Outcome Kernel
unfolding take_current_task set_status
block_current k = do r ← take_current_task k; returns (set_status r.1 r.0 blocked)

-- A round of the idle loop `run_tasks`.
run_from : List ℕ → Kernel → Kernel
unfolding set_status
run_from [] k = k
run_from (task ∷ rest) k = record (set_status k task running) {
  ready_queue = rest;
  current = some task;
}

unfoldable pub run_next : Kernel → Kernel
unfolding run_from
run_next k = run_from k.ready_queue k
