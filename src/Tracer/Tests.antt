-- ===== src/Tracer/Tests.antt =====
-- A run of the tracer: a root leads to 1, that to 2, and nothing to 3.
use whippet.Base.{
  ℕ, ◌<◌, ◌≡◌, refl, List, [], ◌∷◌, some, true, false, arith, ◌==◌, if◌then◌else◌, count,
  Bool-cases, inl, inr,
}
use whippet.Tracer.{
  Marks, Tracer, tracer_visit, visit_all, trace_root, roots_loop, objects_loop, trace_with_data,
}
use whippet.Tracer.Reach.{Within, IsClosed, Traces, trace_with_data-Traces}

abbrev root_edges : ℕ → List ℕ
root_edges root = root ∷ []

abbrev edges : ℕ → List ℕ
edges a = if a == 1 then 2 ∷ [] else []

abbrev unmarked_all : Marks
unmarked_all a = false

abbrev tracer : Tracer ℕ
tracer = record { trace_roots_only = false; roots = 1 ∷ []; worklist = [] }

edge-Within : (a b : ℕ) → 0 < count b (edges a) → 0 < count b (1 ∷ 2 ∷ 3 ∷ [])
edge-Within a b = elim (Bool-cases (a == 1)) [
  | inl e ↦ rw e (λ h. omega (arith, h))
  | inr e ↦ rw e (λ h. absurd (omega (arith, h)))
]

tracer-Within : Within root_edges edges (1 ∷ 2 ∷ 3 ∷ []) tracer.roots
tracer-Within = record { of_roots = λ a h. omega (arith, h); of_objects = edge-Within }

unmarked-IsClosed : IsClosed root_edges edges unmarked_all
unmarked-IsClosed a b m h = absurd (cc m)

trace_with_data-Traces_example :
    Traces root_edges edges tracer unmarked_all
      (trace_with_data root_edges edges 4 tracer unmarked_all)
trace_with_data-Traces_example =
    trace_with_data-Traces root_edges edges 4 (1 ∷ 2 ∷ 3 ∷ []) tracer unmarked_all refl refl
      tracer-Within unmarked-IsClosed (omega arith)

-- The third object is not marked.
marks_two :
    elim (trace_with_data root_edges edges 4 tracer unmarked_all) [
      | some r ↦ r.1 1 ∷ r.1 2 ∷ r.1 3 ∷ []
      | _ ↦ []
    ]
    ≡ true ∷ true ∷ false ∷ []
unfolding trace_with_data roots_loop trace_root objects_loop visit_all tracer_visit
marks_two = refl
