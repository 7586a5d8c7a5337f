-- ===== src/BackgroundThread.antt =====
-- src/background-thread.h: the tasks of the background thread, and the thread. The array of tasks is
-- the list of the slots that were written. Callbacks and their data are numbers, which `call` gives a
-- meaning; it changes the heap that tasks see. Priorities are not negative, and an identifier that
-- overflows its signed 32 bits is `none`. Whoever holds the lock makes one step.
use whippet.Base.{
  ℕ, suc, ◌+◌, ◌-◌, ◌*◌, ◌^◌, ◌≡◌, List, [], ◌∷◌, ◌++◌, Option, none, some, Bool, true, false, ltb,
  ◌==◌, if◌then◌else◌, assert, ◌>>=◌, ◌>>◌, take, drop,
}
pub mod Order
pub mod Remove
pub mod Life
mod Tests

pub record Task : Type 0 where
  pub id : ℕ
  pub priority : ℕ
  pub run : ℕ
  pub data_ : ℕ

pub data ThreadState : Type 0 where
  starting running stopping : ThreadState

pub record BackgroundThread : Type 0 where
  pub count : ℕ
  pub capacity : ℕ
  pub tasks : List Task
  pub next_id : ℕ
  pub state : ThreadState

abbrev pub make_background_thread : BackgroundThread
make_background_thread = record {
  count = 0;
  capacity = 0;
  tasks = [];
  next_id = 0;
  state = starting;
}

unfoldable pub start_from : ThreadState → Option ThreadState
start_from starting = some running
start_from running = none
start_from stopping = none

unfoldable pub start : BackgroundThread → Option BackgroundThread
unfolding start_from
start thread = do state ← start_from thread.state; some (record thread { state = state })

-- The array grows where it is full.
unfoldable pub ensure_capacity : BackgroundThread → BackgroundThread
ensure_capacity thread =
    if thread.count == thread.capacity
    then record thread { capacity = thread.capacity * 2 + 1 }
    else thread

-- The first slot with a task of a larger priority, or the one behind the last.
unfoldable pub insertion_point : ℕ → List Task → ℕ
insertion_point priority [] = 0
insertion_point priority (t ∷ ts) =
    let rest = insertion_point priority ts in if ltb priority t.priority then 0 else suc rest

-- The tasks from the slot on move up by one.
unfoldable pub insert_task : Task → ℕ → ℕ → List Task → List Task
insert_task task insert count tasks =
    take insert tasks ++ task ∷ take (count - insert) (drop insert tasks)

unfoldable pub add_task : BackgroundThread → ℕ → ℕ → ℕ → Option (ℕ × BackgroundThread)
unfolding ensure_capacity insertion_point insert_task
add_task thread priority run data_ = do
  assert (ltb (thread.next_id + 1) (2 ^ 31))
  let thread' = ensure_capacity thread
  let insert = insertion_point priority (take thread.count thread.tasks)
  let id = thread.next_id
  let task : Task = record { id = id; priority = priority; run = run; data_ = data_ }
  some (
    id,
    record thread' {
      tasks = insert_task task insert thread.count thread.tasks;
      next_id = id + 1;
      count = thread.count + 1;
    },
  )

-- The first slot with the identifier, or the one behind the last.
unfoldable pub find_task : ℕ → List Task → ℕ
find_task id [] = 0
find_task id (t ∷ ts) = let rest = find_task id ts in if t.id == id then 0 else suc rest

-- The slots behind the one removed move down by one, and the last slot keeps what it held.
unfoldable pub move_down : ℕ → ℕ → List Task → List Task
move_down remove count tasks =
    take remove tasks
    ++ take (count - (remove + 1)) (drop (remove + 1) tasks)
    ++ drop (count - 1) tasks

-- The count stays.
unfoldable pub remove_task : BackgroundThread → ℕ → Option BackgroundThread
unfolding find_task move_down
remove_task thread id =
    let remove = find_task id (take thread.count thread.tasks) in
    if remove == thread.count
    then none
    else some (record thread { tasks = move_down remove thread.count thread.tasks })

unfoldable pub stop_from : ThreadState → Option ThreadState
stop_from starting = none
stop_from running = some stopping
stop_from stopping = none

-- `gc_destroy_background_thread` up to its wait for the end of the thread.
unfoldable pub destroy : BackgroundThread → Option BackgroundThread
unfolding stop_from
destroy thread = do state ← stop_from thread.state; some (record thread { state = state })

-- Where the thread is: it waits for the start, it waits for a second to pass, or it is at its end.
pub data Phase : Type 0 where
  waiting sleeping ended : Phase

pub record World {ℓ} (Heap : Type ℓ) : Type ℓ where
  pub thread : BackgroundThread
  pub phase : Phase
  pub heap : Heap

module _ {ℓ} {Heap : Type ℓ} (call : ℕ → ℕ → Heap → Heap) where
  unfoldable pub run_tasks : List Task → Heap → Heap
  run_tasks [] heap = heap
  run_tasks (t ∷ ts) heap = run_tasks ts (call t.run t.data_ heap)

  -- The thread from a wake-up to its next wait, or to its end. Where the clock fails it ends with the
  -- lock held, and nothing follows.
  unfoldable pub wake_in : Bool → Phase → ThreadState → World Heap → Option (World Heap)
  unfolding run_tasks
  wake_in clock_ok waiting starting w = some w
  wake_in false waiting running w = none
  wake_in false waiting stopping w = none
  wake_in true waiting running w = some (record w { phase = sleeping })
  wake_in true waiting stopping w = some (record w { phase = ended })
  wake_in clock_ok sleeping starting w = some (record w { phase = ended })
  wake_in clock_ok sleeping running w =
      some (record w { heap = run_tasks (take w.thread.count w.thread.tasks) w.heap })
  wake_in clock_ok sleeping stopping w = some (record w { phase = ended })
  wake_in clock_ok ended state w = some w

  unfoldable pub wake : Bool → World Heap → Option (World Heap)
  unfolding wake_in
  wake clock_ok w = wake_in clock_ok w.phase w.thread.state w

  -- A step of a thread that uses the background thread, or of that itself.
  pub data Step (w : World Heap) : World Heap → Type ℓ where
    starts :
        (thread : BackgroundThread)
        → start w.thread ≡ some thread
        → Step w (record w { thread = thread })
    adds :
        (priority run data_ id : ℕ) (thread : BackgroundThread)
        → add_task w.thread priority run data_ ≡ some (id, thread)
        → Step w (record w { thread = thread })
    removes :
        (id : ℕ) (thread : BackgroundThread)
        → remove_task w.thread id ≡ some thread
        → Step w (record w { thread = thread })
    destroys :
        (thread : BackgroundThread)
        → destroy w.thread ≡ some thread
        → Step w (record w { thread = thread })
    wakes : (clock_ok : Bool) (w' : World Heap) → wake clock_ok w ≡ some w' → Step w w'

  pub data Steps (w : World Heap) : World Heap → Type ℓ where
    done : Steps w w
    then_step : (w' w'' : World Heap) → Steps w w' → Step w' w'' → Steps w w''
