-- ===== src/BackgroundThread/Order.antt =====
-- The tasks run by priority, and those of one priority in the order in which they were added.
use whippet.Base.{
  ℕ, zero, suc, ◌+◌, ◌-◌, ◌^◌, ◌≤◌, ◌<◌, ◌≡◌, ◌≢◌, refl, sym, ap, ◌∙◌, List, [], ◌∷◌, ◌++◌, Option,
  some, arith, ltb, lt→ltb, ltb→lt, All-append, ◌==◌, if◌then◌else◌, take, drop, length,
  length-append, All, Bool-cases, inl, inr,
}
use whippet.BackgroundThread.{
  Task, BackgroundThread, ensure_capacity, insertion_point, insert_task, add_task,
}

abbrev pub IsSorted : List Task → Type 0
IsSorted [] = Unit {0}
IsSorted (t ∷ ts) = All (λ (u : Task). t.priority ≤ u.priority) ts × IsSorted ts

pub record IsValid (thread : BackgroundThread) : Type 0 where
  pub slots : length thread.tasks ≡ thread.count
  pub room : thread.count ≤ thread.capacity
  pub sorted : IsSorted thread.tasks
  pub ids : All (λ (t : Task). t.id < thread.next_id) thread.tasks

-- The tasks that run before a new one of the priority, and those that run after it.
abbrev pub before : ℕ → List Task → List Task
before p [] = []
before p (t ∷ ts) = if ltb p t.priority then before p ts else t ∷ before p ts

abbrev pub after : ℕ → List Task → List Task
after p [] = []
after p (t ∷ ts) = if ltb p t.priority then t ∷ after p ts else after p ts

take-length : (ts : List Task) → take (length ts) ts ≡ ts
take-length [] = refl
take-length (t ∷ ts) = ap (λ us. t ∷ us) (take-length ts)

pub take_slots :
    (thread : BackgroundThread) → IsValid thread → take thread.count thread.tasks ≡ thread.tasks
take_slots thread v = ap (λ n. take n thread.tasks) (sym v.slots) ∙ take-length thread.tasks

before_none : (p : ℕ) (ts : List Task) → All (λ (t : Task). p < t.priority) ts → before p ts ≡ []
before_none p [] h = refl
before_none p (t ∷ ts) h = rw (lt→ltb p t.priority h.0) (before_none p ts h.1)

after-All : (p : ℕ) (ts : List Task) → All (λ (t : Task). p < t.priority) ts → after p ts ≡ ts
after-All p [] h = refl
after-All p (t ∷ ts) h = rw (lt→ltb p t.priority h.0) (ap (λ us. t ∷ us) (after-All p ts h.1))

All-above :
    (p q : ℕ) (ts : List Task)
    → p < q
    → All (λ (t : Task). q ≤ t.priority) ts
    → All (λ (t : Task). p < t.priority) ts
All-above p q [] le h = tt
All-above p q (t ∷ ts) le h = (omega (arith, h.0), All-above p q ts le h.1)

split_at :
    (p : ℕ) (ts : List Task)
    → IsSorted ts
    → (take (insertion_point p ts) ts ≡ before p ts) × (drop (insertion_point p ts) ts ≡ after p ts)
unfolding insertion_point
split_at p [] s = (refl, refl)
split_at p (t ∷ ts) s = elim (Bool-cases (ltb p t.priority)) [
  | inl e ↦
      let above = All-above p t.priority ts (ground arith) s.0 in
      rw e (sym (before_none p ts above), ap (λ us. t ∷ us) (sym (after-All p ts above)))
  | inr e ↦ let (b, a) = split_at p ts s.1 in rw e (ap (λ us. t ∷ us) b, a)
]

pub take-drop : (n : ℕ) (ts : List Task) → take (length ts - n) (drop n ts) ≡ drop n ts
take-drop zero ts = let e : length ts - 0 ≡ length ts = omega arith in rw e (take-length ts)
take-drop (suc n) [] = let e : length {A = Task} [] - suc n ≡ 0 = omega arith in rw e refl
take-drop (suc n) (t ∷ ts) =
    let e : suc (length ts) - suc n ≡ length ts - n = omega arith in rw e (take-drop n ts)

All-before : (P : Task → Type 0) (p : ℕ) (ts : List Task) → All P ts → All P (before p ts)
All-before P p [] h = tt
All-before P p (t ∷ ts) h = elim (Bool-cases (ltb p t.priority)) [
  | inl e ↦ rw e (All-before P p ts h.1)
  | inr e ↦ rw e (h.0, All-before P p ts h.1)
]

All-after : (P : Task → Type 0) (p : ℕ) (ts : List Task) → All P ts → All P (after p ts)
All-after P p [] h = tt
All-after P p (t ∷ ts) h = elim (Bool-cases (ltb p t.priority)) [
  | inl e ↦ rw e (h.0, All-after P p ts h.1)
  | inr e ↦ rw e (All-after P p ts h.1)
]

All-weaken :
    (p : ℕ) (ts : List Task)
    → All (λ (t : Task). p < t.priority) ts
    → All (λ (t : Task). p ≤ t.priority) ts
All-weaken p [] h = tt
All-weaken p (t ∷ ts) h = (omega (arith, h.0), All-weaken p ts h.1)

All-fresh :
    (n : ℕ) (ts : List Task)
    → All (λ (t : Task). t.id < n) ts
    → All (λ (t : Task). t.id ≢ n) ts × All (λ (t : Task). t.id < n + 1) ts
All-fresh n [] h = (tt, tt)
All-fresh n (t ∷ ts) h =
    let r = All-fresh n ts h.1 in
    ((λ e. absurd (omega (arith, h.0)), r.0), (omega (arith, h.0), r.1))

All-inserted :
    (P : Task → Type 0) (p : ℕ) (ts : List Task) (task : Task)
    → All P ts
    → P task
    → All P (before p ts ++ task ∷ after p ts)
All-inserted P p [] task h new = (new, tt)
All-inserted P p (t ∷ ts) task h new = elim (Bool-cases (ltb p t.priority)) [
  | inl e ↦ rw e (
      All-append P (before p ts) (task ∷ t ∷ after p ts) (All-before P p ts h.1)
        (new, (h.0, All-after P p ts h.1)))
  | inr e ↦ rw e (h.0, All-inserted P p ts task h.1 new)
]

IsSorted-inserted :
    (ts : List Task) (task : Task)
    → IsSorted ts
    → IsSorted (before task.priority ts ++ task ∷ after task.priority ts)
IsSorted-inserted [] task s = (tt, tt)
IsSorted-inserted (t ∷ ts) task s = elim (Bool-cases (ltb task.priority t.priority)) [
  | inl e ↦
      let p = task.priority in
      let above = All-above p t.priority ts (ground arith) s.0 in
      rw (e, before_none p ts above, after-All p ts above)
        ((omega (arith, ltb→lt p t.priority e), All-weaken p ts above), s)
  | inr e ↦ rw e (
    All-inserted (λ (u : Task). t.priority ≤ u.priority) task.priority ts task s.0 (ground arith),
    IsSorted-inserted ts task s.1,
  )
]

length-inserted :
    (p : ℕ) (ts : List Task) (task : Task)
    → length (before p ts ++ task ∷ after p ts) ≡ length ts + 1
length-inserted p [] task = refl
length-inserted p (t ∷ ts) task = elim (Bool-cases (ltb p t.priority)) [
  | inl e ↦
      rw (e, length-append)
        (omega (arith, length-append (before p ts) (task ∷ after p ts), length-inserted p ts task))
  | inr e ↦ rw e (omega (arith, length-inserted p ts task))
]

-- What adding a task answers.
pub record Adds (thread : BackgroundThread) (priority run data_ : ℕ)
    (out : Option (ℕ × BackgroundThread)) : Type 0 where
  pub after_it : BackgroundThread
  pub answer : out ≡ some (thread.next_id, after_it)
  pub fresh : All (λ (t : Task). t.id ≢ thread.next_id) thread.tasks
  pub in_order :
      after_it.tasks
      ≡ before priority thread.tasks
        ++ record { id = thread.next_id; priority = priority; run = run; data_ = data_ }
          ∷ after priority thread.tasks
  pub valid : IsValid after_it
  pub same_state : after_it.state ≡ thread.state

inserted :
    (thread : BackgroundThread) (priority : ℕ) (task : Task)
    → IsValid thread
    → insert_task task
        (insertion_point priority (take thread.count thread.tasks))
        thread.count
        thread.tasks
      ≡ before priority thread.tasks ++ task ∷ after priority thread.tasks
unfolding insert_task
inserted thread priority task v =
    let i = insertion_point priority thread.tasks in
    let (b, a) = split_at priority thread.tasks v.sorted in
    let rest : take (thread.count - i) (drop i thread.tasks) ≡ after priority thread.tasks =
      ap (λ n. take (n - i) (drop i thread.tasks)) (sym v.slots) ∙ take-drop i thread.tasks ∙ a in
    rw (take_slots thread v, b, rest) refl

ensure_capacity_lem :
    (thread : BackgroundThread)
    → thread.count ≤ thread.capacity
    → (thread.count + 1 ≤ (ensure_capacity thread).capacity)
      × ((ensure_capacity thread).state ≡ thread.state)
unfolding ensure_capacity
ensure_capacity_lem thread h = elim (Bool-cases (thread.count == thread.capacity)) [
  | inl e ↦ rw e (ground arith, refl)
  | inr e ↦ rw e (ground arith, refl)
]

-- Adding a task to a valid thread, while identifiers fit 31 bits, answers an identifier that no task
-- has; the task runs behind all those of its priority or a smaller one and before the others, whose
-- order stays, and the thread stays valid.
pub add_task-Adds :
    (thread : BackgroundThread) (priority run data_ : ℕ)
    → IsValid thread
    → thread.next_id + 1 < 2 ^ 31
    → Adds thread priority run data_ (add_task thread priority run data_)
unfolding add_task
add_task-Adds thread priority run data_ v fits =
    let task : Task = record {
      id = thread.next_id;
      priority = priority;
      run = run;
      data_ = data_;
    } in
    let e = inserted thread priority task v in
    let (room, state) = ensure_capacity_lem thread v.room in
    let (fresh, ids) = All-fresh thread.next_id thread.tasks v.ids in
    rw (lt→ltb (thread.next_id + 1) (2 ^ 31) fits) record {
      after_it = record (ensure_capacity thread) {
        tasks =
            insert_task task (insertion_point priority (take thread.count thread.tasks))
              thread.count thread.tasks;
        next_id = thread.next_id + 1;
        count = thread.count + 1;
      };
      answer = refl;
      fresh = fresh;
      in_order = e;
      valid = record {
        slots = rw e (omega (arith, length-inserted priority thread.tasks task, v.slots));
        room = room;
        sorted = rw e (IsSorted-inserted thread.tasks task v.sorted);
        ids = rw e (
            All-inserted (λ (t : Task). t.id < thread.next_id + 1) priority thread.tasks task ids
              (omega arith));
      };
      same_state = state;
    }
