-- ===== src/LargeObject/Tests.antt =====
-- Small spaces of large objects, and the theorems at them.
use whippet.Base.{
  ℕ, ◌+◌, ◌≡◌, ◌≢◌, refl, ap, sym, ◌∙◌, replicate, set, subst, List, [], ◌∷◌, Option, none, some,
  true, false, arith, inl,
}
use whippet.Histogram.{bucket}
use whippet.Extents.{allocate}
use whippet.SplayTree.Contents.{find}
use whippet.LargeObject.Span.{LargeObject, large_object_compare}
use whippet.LargeObject.Space.{
  trace_precisely, trace_none, live, dead, Node, Space, node_at, mark, is_live, live_or_null,
  object_containing_edge,
}
use whippet.LargeObject.Alloc.{init, alloc, fresh_pages, resolve_conservative_ref}
use whippet.LargeObject.Cycle.{start_gc, finish_gc, process_quarantine}
use whippet.LargeObject.Valid.{IsValid}
use whippet.LargeObject.Nursery.{init-IsValid, fresh_pages-finish_gc}
use whippet.LargeObject.Granted.{Allocates}
use whippet.LargeObject.Allocate.{alloc-Allocates, Allocates-IsValid}
use whippet.LargeObject.Mark.{Marks, mark-Marks}
use whippet.LargeObject.Finish.{Ends, finish_gc-Ends, is_swept}
use whippet.LargeObject.Lists.{live_only, Processes, process_quarantine-Processes}
use whippet.LargeObject.Prepare.{Starts, start_gc-Starts}
use whippet.LargeObject.Conservative.{resolve_conservative_ref-object_containing_edge}

abbrev platform : ℕ → ℕ
platform size = 65536

abbrev unavailable : ℕ → ℕ
unavailable size = 0

abbrev key : ℕ → ℕ → LargeObject
key addr size = record { addr = addr; size = size }

-- A space of pages of 4096 bytes: its mark, nodes, keys, nursery and quarantine, and counts of pages.
abbrev space : ℕ → List Node → List ℕ → List ℕ → List (List ℕ) → (total free live freed : ℕ) → Space
space marked tree keys nursery quarantine total free live_pages freed = record {
  marked = marked;
  object_tree = tree;
  object_map = keys;
  nursery = nursery;
  quarantine = quarantine;
  remembered_edges = [];
  extents = record { capacity = 64; ranges = [] };
  page_size = 4096;
  page_size_log2 = 12;
  total_pages = total;
  free_pages = free;
  live_pages_at_last_collection = live_pages;
  pages_freed_by_last_collection = freed;
  synchronous_release = false;
}

abbrev no_holes : List (List ℕ)
no_holes = replicate 253 []

-- The lists with one hole, in a size class.
abbrev hole_in : ℕ → ℕ → List (List ℕ)
hole_in class addr = set no_holes class (addr ∷ [])

abbrev new_space : Space
new_space = space 1 [] [] [] no_holes 0 0 0 0

abbrev one_object : Space
one_object =
    space 1 ((key 65536 12288, live 0 trace_precisely) ∷ []) (65536 ∷ []) [] no_holes 3 0 0 0

-- A major collection in which nothing was marked, at its start and at its end.
abbrev started : Space
started = space 3 ((key 65536 12288, live 0 trace_precisely) ∷ []) (65536 ∷ []) [] no_holes 3 0 0 0

abbrev swept : Space
swept = space 3 ((key 65536 12288, dead 0) ∷ []) (65536 ∷ []) [] (hole_in 50 65536) 3 3 0 3

program : Unit {0}
unfolding init alloc start_gc finish_gc mark process_quarantine bucket allocate large_object_compare
program = tt

init_run : init true 4096 12 true ≡ new_space
unfolding program
init_run = refl

one_object_run : alloc true platform new_space 3 trace_precisely ≡ some (65536, one_object)
unfolding program
one_object_run = refl

started_run : start_gc false one_object false ≡ some started
unfolding program
started_run = refl

swept_run : finish_gc true false started false ≡ some ([], swept)
unfolding program
swept_run = refl

new_space-IsValid : IsValid new_space
unfolding program
new_space-IsValid = init-IsValid true 4096 12 true

one_object-IsValid : IsValid one_object
one_object-IsValid =
    Allocates-IsValid platform new_space one_object 3 65536 trace_precisely _ new_space-IsValid
      (alloc-Allocates true platform new_space 3 trace_precisely new_space-IsValid (omega arith)
        (λ z. tt) (omega arith) (omega arith))
      one_object_run

one_of : Option Space → Space
one_of none = new_space
one_of (some s) = s

space_of : Option (List LargeObject × Space) → Space
space_of none = new_space
space_of (some (released, s)) = s

started-IsValid : IsValid started
unfolding one_of
started-IsValid =
    let s =
      start_gc-Starts false false one_object one_object-IsValid (omega arith) (omega arith)
        (λ z. refl) in
    subst IsValid (ap one_of (sym s.run ∙ started_run)) s.valid

swept-IsValid : IsValid swept
unfolding space_of
swept-IsValid =
    let e = finish_gc-Ends true false false started started-IsValid (λ z. refl) in
    subst IsValid (ap space_of (sym e.run ∙ swept_run)) e.valid

mark-Marks_example : Marks started 65536 (mark started 65536)
unfolding node_at is_live
mark-Marks_example = mark-Marks started 65536 started-IsValid (λ n h. cc)

start_gc-Starts_example : Starts one_object true false (start_gc true one_object false)
start_gc-Starts_example =
    start_gc-Starts true false one_object one_object-IsValid (omega arith) (omega arith) (λ z. refl)

finish_gc-Ends_example :
    Ends started (is_swept true started false) (finish_gc true false started false)
finish_gc-Ends_example = finish_gc-Ends true false false started started-IsValid (λ z. refl)

process_quarantine-Processes_example : Processes swept (process_quarantine swept)
process_quarantine-Processes_example = process_quarantine-Processes swept swept-IsValid

-- Two of the three pages of the hole are taken again.
alloc-Allocates_example :
    Allocates unavailable swept 2 trace_none (alloc true unavailable swept 2 trace_none)
alloc-Allocates_example =
    alloc-Allocates true unavailable swept 2 trace_none swept-IsValid (omega arith)
      (λ z. absurd (z refl)) (omega arith) (omega arith)

reused_run :
    alloc true unavailable swept 2 trace_none
    ≡ some (
      65536,
      space 3
          ((key 65536 8192, live 0 trace_none) ∷ (key 73728 4096, dead 0) ∷ [])
          (73728 ∷ 65536 ∷ [])
          (65536 ∷ [])
          (hole_in 44 73728)
          3
          1
          0
          3,
    )
unfolding program
reused_run = refl

resolve_conservative_ref-object_containing_edge_example :
    resolve_conservative_ref (λ d. true) one_object 70000 true
    ≡ some (object_containing_edge one_object 70000)
unfolding node_at
resolve_conservative_ref-object_containing_edge_example =
    resolve_conservative_ref-object_containing_edge (λ d. true) one_object 70000 one_object-IsValid
      (omega arith) refl (inl refl)

object_containing_edge_test : object_containing_edge one_object 70000 ≡ 65536
unfolding object_containing_edge live_or_null find large_object_compare
object_containing_edge_test = refl

fresh_pages-finish_gc_example :
    (released : List LargeObject) × (u : Space) × (finish_gc true false
        (fresh_pages platform new_space 3 12288 trace_none).1
        true
      ≡ some (released, u))
    × (live_only (node_at 65536 u.object_tree) ≡ some (key 65536 12288, live 0 trace_none))
    × (u.marked ≢ 0)
    × (u.free_pages + 0 ≡ 0 + 3)
fresh_pages-finish_gc_example =
    fresh_pages-finish_gc false platform new_space 3 trace_none new_space-IsValid (omega arith)
      (omega arith) tt (omega arith)
