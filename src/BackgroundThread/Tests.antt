-- ===== src/BackgroundThread/Tests.antt =====
-- Runs of the background thread.
use whippet.Base.{ℕ, ◌≡◌, refl, List, [], ◌∷◌, some, arith}
use whippet.BackgroundThread.{
  Task, running, starting, BackgroundThread, add_task, find_task, move_down, remove_task, sleeping,
  World,
}
use whippet.BackgroundThread.Order.{IsValid, Adds, add_task-Adds}
use whippet.BackgroundThread.Remove.{Removes, remove_task-Removes}

abbrev process_quarantine : Task
process_quarantine = record { id = 0; priority = 0; run = 7; data_ = 1 }

abbrev release_memory : Task
release_memory = record { id = 1; priority = 200; run = 8; data_ = 2 }

abbrev two_tasks : BackgroundThread
two_tasks = record {
  count = 2;
  capacity = 3;
  tasks = process_quarantine ∷ release_memory ∷ [];
  next_id = 2;
  state = running;
}

two_tasks-IsValid : IsValid two_tasks
two_tasks-IsValid = record {
  slots = refl;
  room = omega arith;
  sorted = ((omega arith, tt), (tt, tt));
  ids = (omega arith, (omega arith, tt));
}

add_task-Adds_example : Adds two_tasks 0 9 3 (add_task two_tasks 0 9 3)
add_task-Adds_example = add_task-Adds two_tasks 0 9 3 two_tasks-IsValid (omega arith)

remove_task-Removes_example : Removes two_tasks 0 (remove_task two_tasks 0)
remove_task-Removes_example = remove_task-Removes two_tasks 0 two_tasks-IsValid

-- The task that is removed last stays.
removes_nothing : remove_task two_tasks 1 ≡ some two_tasks
unfolding remove_task find_task move_down
removes_nothing = refl

-- The heap is the list of the functions that ran.
abbrev call : ℕ → ℕ → List ℕ → List ℕ
call run data_ heap = run ∷ heap

abbrev one_task : BackgroundThread
one_task = record {
  count = 1;
  capacity = 1;
  tasks = process_quarantine ∷ [];
  next_id = 1;
  state = starting;
}

abbrev started : World (List ℕ)
started = record { thread = record one_task { state = running }; phase = sleeping; heap = [] }

abbrev ran : World (List ℕ)
ran = record started { heap = 7 ∷ [] }
