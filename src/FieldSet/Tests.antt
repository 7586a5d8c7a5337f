-- ===== src/FieldSet/Tests.antt =====
-- Runs of the remembered set, and its theorems at concrete sets.
use whippet.Base.{ℕ, ◌≡◌, refl, List, [], ◌∷◌, some, Bool, ltb, ◌==◌, arith, count}
use whippet.FieldSet.{
  EdgeBuffer, FieldSet, Writer, release_buffer, visit_edge_buffer, visit_loop, replace_by_last,
  writer_add_edge,
}
use whippet.FieldSet.Edges.{IsValid, WriterIsValid, Writes, writer_add_edge-Writes}
use whippet.FieldSet.Visit.{VisitsBuffer, visit_edge_buffer_lem}

abbrev buffer : List ℕ → EdgeBuffer
buffer es = record { edges = es }

abbrev some_set : FieldSet
some_set = record { full = []; partly_full = buffer (8 ∷ 16 ∷ []) ∷ []; empty = buffer [] ∷ [] }

abbrev writing : Writer
writing = record { buf = some (buffer (24 ∷ [])) }

some_set-IsValid : IsValid some_set
some_set-IsValid = omega arith

writing-IsValid : WriterIsValid writing
writing-IsValid b e = ground arith

-- A visitor that keeps the edges below 5, and logs all.
abbrev below_five : ℕ → List ℕ → Bool × List ℕ
below_five edge log = (ltb edge 5, edge ∷ log)

visit_drops_middle :
    visit_edge_buffer some_set (buffer (1 ∷ 9 ∷ 2 ∷ 3 ∷ [])) below_five []
    ≡ some (
      record some_set { partly_full = buffer (1 ∷ 3 ∷ 2 ∷ []) ∷ buffer (8 ∷ 16 ∷ []) ∷ [] },
      2 ∷ 3 ∷ 9 ∷ 1 ∷ [],
    )
unfolding visit_edge_buffer visit_loop replace_by_last release_buffer
visit_drops_middle = refl

writer_add_edge-Writes_example : Writes writing some_set 32 (writer_add_edge writing some_set 32)
writer_add_edge-Writes_example =
    writer_add_edge-Writes writing some_set 32 some_set-IsValid writing-IsValid

-- A visitor whose answer depends on its state: it keeps an edge the first time it sees it.
abbrev first_time : ℕ → List ℕ → Bool × List ℕ
first_time edge log = (count edge log == 0, edge ∷ log)

visit_edge_buffer_lem_example :
    VisitsBuffer first_time some_set
      (buffer (1 ∷ 9 ∷ 1 ∷ []))
      []
      (visit_edge_buffer some_set (buffer (1 ∷ 9 ∷ 1 ∷ [])) first_time [])
visit_edge_buffer_lem_example =
    visit_edge_buffer_lem first_time some_set (buffer (1 ∷ 9 ∷ 1 ∷ [])) []
