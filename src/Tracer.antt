-- ===== src/Tracer.antt =====
-- src/serial-tracer.h: the tracer of one thread, with the visits of src/pcc.c by which a root and an object
-- are traced. The two worklists are lists in the order in which they give out what was added to them, as
-- the theorems of RootWorklist and SimpleWorklist show. The references of a root and of an object are
-- arguments: `trace_root` stands for the cases of the code's switch on the kind of root that visit the
-- edges of a heap or of a mutator, and the other kinds, with the crash on an unknown one, have no
-- counterpart. Tracing an edge marks its object in place, and tells whether it was not marked before:
-- null is no edge, and the moving and forwarding of an object is not modelled.
use whippet.Base.{
  ℕ, zero, suc, List, [], ◌∷◌, ◌++◌, Option, none, some, Bool, true, false, ◌==◌, if◌then◌else◌,
  ◌>>=◌,
}
pub mod Visits
pub mod Reach
mod Tests

abbrev pub Marks : Type 0
Marks = ℕ → Bool

abbrev pub mark : Marks → ℕ → Marks
mark marks ref = λ a. if a == ref then true else marks a

-- The worklist behind the marks.
abbrev pub Tracing : Type 0
Tracing = Marks × List ℕ

-- `gc_trace_worker_enqueue`, behind the test of `trace_edge`.
unfoldable pub tracer_visit : ℕ → Tracing → Tracing
tracer_visit ref (marks, worklist) =
    if marks ref then (marks, worklist) else (mark marks ref, worklist ++ ref ∷ [])

unfoldable pub visit_all : List ℕ → Tracing → Tracing
unfolding tracer_visit
visit_all [] t = t
visit_all (ref ∷ refs) t = visit_all refs (tracer_visit ref t)

pub record Tracer {ℓ} (Root : Type ℓ) : Type ℓ where
  pub trace_roots_only : Bool
  pub roots : List Root
  pub worklist : List ℕ

-- `gc_tracer_init`.
abbrev pub make_tracer {ℓ} : {Root : Type ℓ} → Tracer Root
make_tracer = record { trace_roots_only = false; roots = []; worklist = [] }

unfoldable pub add_root {ℓ} : {Root : Type ℓ} → Tracer Root → Root → Tracer Root
add_root tracer root = record tracer { roots = tracer.roots ++ root ∷ [] }

module _ {ℓ} {Root : Type ℓ} (root_edges : Root → List ℕ) (edges : ℕ → List ℕ) where
  unfoldable pub trace_root : Root → Tracing → Tracing
  unfolding visit_all
  trace_root root t = visit_all (root_edges root) t

  -- Roots are taken until none is left.
  unfoldable pub roots_loop : List Root → Tracing → Tracing
  unfolding trace_root
  roots_loop [] t = t
  roots_loop (root ∷ roots) t = roots_loop roots (trace_root root t)

  -- Objects are taken until none is left. Fuel is one for each of them, and one.
  unfoldable pub objects_loop : ℕ → Tracing → Option Tracing
  unfolding visit_all
  objects_loop zero t = none
  objects_loop (suc fuel) (marks, []) = some (marks, [])
  objects_loop (suc fuel) (marks, obj ∷ worklist) =
      objects_loop fuel (visit_all (edges obj) (marks, worklist))

  unfoldable pub trace_with_data : ℕ → Tracer Root → Marks → Option (Tracer Root × Marks)
  unfolding roots_loop objects_loop
  trace_with_data fuel tracer marks =
      let t = roots_loop tracer.roots (marks, tracer.worklist) in
      elim tracer.trace_roots_only [
        | true ↦ some (record tracer { roots = []; worklist = t.1 }, t.0)
        | false ↦ do
          t' ← objects_loop fuel t
          some (record tracer { roots = []; worklist = t'.1 }, t'.0)
      ]

  -- `gc_tracer_trace_roots`.
  unfoldable pub trace_roots : ℕ → Tracer Root → Marks → Option (Tracer Root × Marks)
  unfolding trace_with_data
  trace_roots fuel tracer marks = do
    (tracer', marks') ← trace_with_data fuel (record tracer { trace_roots_only = true }) marks
    some (record tracer' { trace_roots_only = false }, marks')
