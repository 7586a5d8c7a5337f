-- ===== src/Finalizer/Tests.antt =====
-- A run of the finalizers, and their theorems at a concrete heap.
use whippet.Base.{ℕ, ◌≡◌, refl, List, [], ◌∷◌, none, some, Bool, arith, ltb}
use whippet.Finalizer.{
  init, active, Finalizer, FinalizerState, make_finalizer_state, attach_internal,
  resolve_finalizers, resolve_buckets, resolve_bucket, resolve_one, add_finalizer_to_table,
  add_fired_finalizer, list_push, empty_table,
}
use whippet.Finalizer.Tables.{TableIsValid, empty_table-IsValid}
use whippet.Finalizer.Resolved.{table_at, outcome_at, Resolves, resolve_finalizers-Resolves}
use whippet.Finalizer.World.{World, WorldIsValid, Step, Advances}
use whippet.Finalizer.Life.{Steps, Steps-Advances}

-- Objects below 100 are live, and nothing moves; the heap is the list of shaded objects.
abbrev visited : ℕ → List ℕ → Bool × ℕ × List ℕ
visited object heap = (ltb object 100, object, heap)

abbrev visit : ℕ → List ℕ → ℕ × List ℕ
visit object heap = (object, object ∷ heap)

abbrev new_finalizer : ℕ → ℕ → Finalizer
new_finalizer addr object = record { addr = addr; state = init; object = object; closure = 7 }

abbrev start : FinalizerState (List ℕ)
start = make_finalizer_state 2

-- One finalizer of a dead object and one of a live object, at priority 1.
abbrev one_attached : FinalizerState (List ℕ)
one_attached = record start {
  tables =
      empty_table
      ∷ add_finalizer_to_table empty_table (record (new_finalizer 8 200) { state = active })
      ∷ [];
}

abbrev two_attached : FinalizerState (List ℕ)
two_attached = record start {
  tables =
      empty_table
      ∷ add_finalizer_to_table
          (add_finalizer_to_table empty_table (record (new_finalizer 8 200) { state = active }))
          (record (new_finalizer 16 50) { state = active })
      ∷ [];
}

two_attached-IsValid : TableIsValid (table_at two_attached 1)
unfolding add_finalizer_to_table list_push
two_attached-IsValid = record { has_buckets = refl; counts = refl; all_active = ground arith }

resolve_finalizers-Resolves_example :
    Resolves visited visit two_attached 1
      (outcome_at visited visit two_attached 1 [])
      (resolve_finalizers visited visit two_attached 1 [])
unfolding make_finalizer_state add_finalizer_to_table list_push
resolve_finalizers-Resolves_example =
    resolve_finalizers-Resolves visited visit two_attached 1 [] (omega arith) two_attached-IsValid
      (omega arith)

abbrev world : FinalizerState (List ℕ) → World (List ℕ)
world state = record { state = state; handed = [] }

world-IsValid : WorldIsValid (world start)
unfolding make_finalizer_state
world-IsValid = record {
  tables_valid = (empty_table-IsValid, (empty_table-IsValid, tt));
  fired_valid = tt;
  handed_valid = tt;
}

start-Step : Step visited visit (world start) (new_finalizer 8 200 ∷ []) (world one_attached)
unfolding attach_internal make_finalizer_state add_finalizer_to_table list_push
start-Step = Step.attach (new_finalizer 8 200) 1 one_attached refl (omega arith)

one_attached-Step :
    Step visited visit (world one_attached) (new_finalizer 16 50 ∷ []) (world two_attached)
unfolding attach_internal make_finalizer_state add_finalizer_to_table list_push
one_attached-Step = Step.attach (new_finalizer 16 50) 1 two_attached refl (omega arith)

two_attached-Steps :
    Steps visited visit
      (world start)
      (new_finalizer 8 200 ∷ new_finalizer 16 50 ∷ [])
      (world two_attached)
two_attached-Steps =
    Steps.then_step (new_finalizer 8 200 ∷ []) (new_finalizer 16 50 ∷ []) (world one_attached) _
      (Steps.then_step [] (new_finalizer 8 200 ∷ []) (world start) _ Steps.done start-Step)
      one_attached-Step

Steps-Advances_example :
    Advances (world start) (new_finalizer 8 200 ∷ new_finalizer 16 50 ∷ []) (world two_attached)
Steps-Advances_example =
    Steps-Advances visited visit (world start) (world two_attached)
      (new_finalizer 8 200 ∷ new_finalizer 16 50 ∷ []) world-IsValid two_attached-Steps

-- The finalizer of the dead object fires, and its object is shaded.
fires_one :
    elim (resolve_finalizers visited visit two_attached 1 []) [ none ↦ [] | some r ↦ r.2 ]
    ≡ 200 ∷ []
unfolding resolve_finalizers resolve_buckets resolve_bucket resolve_one add_fired_finalizer
    add_finalizer_to_table list_push make_finalizer_state
fires_one = refl
