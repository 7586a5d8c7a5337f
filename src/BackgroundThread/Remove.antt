-- ===== src/BackgroundThread/Remove.antt =====
-- What the removal of a task leaves.
use whippet.Base.{
  ℕ, suc, ◌+◌, ◌-◌, ◌≤◌, ◌<◌, ◌≡◌, ◌≢◌, refl, sym, ap, ◌∙◌, List, [], ◌∷◌, ◌++◌, Option, none, some,
  true, false, arith, ◌==◌, if◌then◌else◌, take, drop, length, length-append, All, All-append,
  Bool-cases, ◌⊎◌, inl, inr,
}
use whippet.BackgroundThread.{Task, BackgroundThread, find_task, move_down, remove_task}
use whippet.BackgroundThread.Order.{IsSorted, IsValid, take_slots, take-drop}

-- The list without the first task of the identifier.
abbrev pub without : ℕ → List Task → List Task
without id [] = []
without id (t ∷ ts) = if t.id == id then ts else t ∷ without id ts

abbrev pub last : List Task → List Task
last [] = []
last (t ∷ []) = t ∷ []
last (t ∷ u ∷ ts) = last (u ∷ ts)

abbrev pub Holds : ℕ → List Task → Type 0
Holds id [] = ⊥
Holds id (t ∷ ts) = (t.id ≡ id) ⊎ Holds id ts

-- The tasks without the one removed, and the last of those there were once more.
abbrev pub left_behind : ℕ → List Task → List Task
left_behind id ts = without id ts ++ last ts

-- What removing a task answers.
pub data Removes (thread : BackgroundThread) (id : ℕ) : Option BackgroundThread → Type 0 where
  absent : All (λ (t : Task). t.id ≢ id) thread.tasks → Removes thread id none
  removed :
      (thread' : BackgroundThread)
      → Holds id thread.tasks
      → thread'.tasks ≡ left_behind id thread.tasks
      → thread'.count ≡ thread.count
      → thread'.state ≡ thread.state
      → IsValid thread'
      → Removes thread id (some thread')

All-last : (P : Task → Type 0) (ts : List Task) → All P ts → All P (last ts)
All-last P [] h = tt
All-last P (t ∷ []) h = h
All-last P (t ∷ u ∷ ts) h = All-last P (u ∷ ts) h.1

All-without : (P : Task → Type 0) (id : ℕ) (ts : List Task) → All P ts → All P (without id ts)
All-without P id [] h = tt
All-without P id (t ∷ ts) h = elim (Bool-cases (t.id == id)) [
  | inl e ↦ rw e h.1
  | inr e ↦ rw e (h.0, All-without P id ts h.1)
]

All-left_behind :
    (P : Task → Type 0) (id : ℕ) (ts : List Task) → All P ts → All P (left_behind id ts)
All-left_behind P id ts h =
    All-append P (without id ts) (last ts) (All-without P id ts h) (All-last P ts h)

IsSorted-last : (ts : List Task) → IsSorted ts → IsSorted (ts ++ last ts)
IsSorted-last [] s = tt
IsSorted-last (t ∷ []) s = ((omega arith, tt), (tt, tt))
IsSorted-last (t ∷ u ∷ ts) s = (
  All-append (λ (v : Task). t.priority ≤ v.priority) (u ∷ ts) (last (u ∷ ts)) s.0
      (All-last (λ (v : Task). t.priority ≤ v.priority) (u ∷ ts) s.0),
  IsSorted-last (u ∷ ts) s.1,
)

IsSorted-left_behind : (id : ℕ) (ts : List Task) → IsSorted ts → IsSorted (left_behind id ts)
IsSorted-left_behind id [] s = tt
IsSorted-left_behind id (t ∷ []) s = elim (Bool-cases (t.id == id)) [
  | inl e ↦ rw e (tt, tt)
  | inr e ↦ rw e ((omega arith, tt), (tt, tt))
]
IsSorted-left_behind id (t ∷ u ∷ ts) s = elim (Bool-cases (t.id == id)) [
  | inl e ↦ rw e (IsSorted-last (u ∷ ts) s.1)
  | inr e ↦ rw e (
    All-left_behind (λ (v : Task). t.priority ≤ v.priority) id (u ∷ ts) s.0,
    IsSorted-left_behind id (u ∷ ts) s.1,
  )
]

length-last : (t : Task) (ts : List Task) → length (last (t ∷ ts)) ≡ 1
length-last t [] = refl
length-last t (u ∷ ts) = length-last u ts

length-without : (id : ℕ) (ts : List Task) → Holds id ts → length (without id ts) + 1 ≡ length ts
length-without id [] h = absurd h
length-without id (t ∷ ts) h = elim (Bool-cases (t.id == id)) [
  | inl e ↦ rw e (omega arith)
  | inr e ↦ elim h [
    | inl same ↦ absurd (ground arith)
    | inr rest ↦ rw e (omega (arith, length-without id ts rest))
  ]
]

length-left_behind :
    (id : ℕ) (ts : List Task) → Holds id ts → length (left_behind id ts) ≡ length ts
length-left_behind id [] h = absurd h
length-left_behind id (t ∷ ts) h = omega (
  arith,
  length-append (without id (t ∷ ts)) (last (t ∷ ts)),
  length-without id (t ∷ ts) h,
  length-last t ts,
)

-- Where the search for a task ends.
data Found (id : ℕ) (ts : List Task) : Type 0 where
  found :
      Holds id ts
      → find_task id ts < length ts
      → take (find_task id ts) ts ++ drop (suc (find_task id ts)) ts ≡ without id ts
      → Found id ts
  missing : All (λ (t : Task). t.id ≢ id) ts → find_task id ts ≡ length ts → Found id ts

found_behind : (id : ℕ) (t : Task) (ts : List Task) → t.id ≢ id → Found id ts → Found id (t ∷ ts)
unfolding find_task
found_behind id t ts n (found h le e) =
    let other : (t.id == id) ≡ false = ground arith in
    Found.found (inr h) (rw other (omega (arith, le))) (rw other (ap (λ us. t ∷ us) e))
found_behind id t ts n (missing h e) =
    let other : (t.id == id) ≡ false = ground arith in Found.missing (n, h) (rw other (ap suc e))

find_task-Found : (id : ℕ) (ts : List Task) → Found id ts
unfolding find_task
find_task-Found id [] = Found.missing tt refl
find_task-Found id (t ∷ ts) = elim (Bool-cases (t.id == id)) [
  | inl e ↦ Found.found (inl (ground arith)) (rw e (omega arith)) (rw e refl)
  | inr e ↦ found_behind id t ts (λ same. ground arith) (find_task-Found id ts)
]

drop-last : (t : Task) (ts : List Task) → drop (length ts) (t ∷ ts) ≡ last (t ∷ ts)
drop-last t [] = refl
drop-last t (u ∷ ts) = drop-last u ts

move_down_lem :
    (id : ℕ) (ts : List Task)
    → find_task id ts < length ts
    → take (find_task id ts) ts ++ drop (suc (find_task id ts)) ts ≡ without id ts
    → move_down (find_task id ts) (length ts) ts ≡ left_behind id ts
unfolding move_down
move_down_lem id [] h e = absurd (omega (arith, h))
move_down_lem id (t ∷ ts) h e =
    let i = find_task id (t ∷ ts) in
    let next : i + 1 ≡ suc i = omega arith in
    let end : suc (length ts) - 1 ≡ length ts = omega arith in
    rw (next, end, take-drop (suc i) (t ∷ ts), drop-last t ts, e) refl

removes :
    (thread : BackgroundThread) (id : ℕ)
    → IsValid thread
    → Found id thread.tasks
    → Removes thread id (remove_task thread id)
unfolding remove_task
removes thread id v (missing h e) =
    let all : (find_task id thread.tasks == thread.count) ≡ true = ground (arith, v.slots) in
    rw (take_slots thread v, all) (Removes.absent h)
removes thread id v (found h le e) =
    let some_task : (find_task id thread.tasks == thread.count) ≡ false = ground (arith, v.slots) in
    let moved : move_down (find_task id thread.tasks) thread.count thread.tasks
        ≡ left_behind id thread.tasks =
      ap (λ n. move_down (find_task id thread.tasks) n thread.tasks) (sym v.slots)
      ∙ move_down_lem id thread.tasks le e in
    rw (take_slots thread v, some_task)
      (Removes.removed _ h moved refl refl record {
        slots = rw moved (length-left_behind id thread.tasks h ∙ v.slots);
        room = v.room;
        sorted = rw moved (IsSorted-left_behind id thread.tasks v.sorted);
        ids =
            rw moved (All-left_behind (λ (t : Task). t.id < thread.next_id) id thread.tasks v.ids);
      })

-- Removing a task of a valid thread fails exactly if no task has the identifier. Otherwise the tasks
-- behind it move down, but their count stays: the last task has two slots and runs twice, also where it
-- is the one removed, which then runs on. The order by priority is kept.
pub remove_task-Removes :
    (thread : BackgroundThread) (id : ℕ)
    → IsValid thread
    → Removes thread id (remove_task thread id)
remove_task-Removes thread id v = removes thread id v (find_task-Found id thread.tasks)
