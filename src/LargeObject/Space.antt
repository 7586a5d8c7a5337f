-- ===== src/LargeObject/Space.antt =====
-- src/large-object-space.h: the state of the space, and the operations on single objects. A pointer to
-- a node of the object tree is the address at which its span starts, under which the object map finds
-- it. The tree is the list of its nodes in order: SplayTree shows that its operations are `put`, `find`
-- and `delete` on that list. The map and the sets of addresses hold their keys, each once. The links
-- of the freelists are lists. `none` is a failed assertion, a pointer to no node,
-- or a read of the side of a union that is not held.
use whippet.Base.{
  ℕ, ◌+◌, ◌-◌, ◌/◌, ◌%◌, List, [], ◌∷◌, Option, none, some, Bool, true, false, not, if◌then◌else◌,
  ◌==◌, ◌>>=◌, ◌>>◌, assert, get_or, set,
}
use whippet.Base.Word.{word_mod, word, ◌<<<◌, ◌>>>◌}
use whippet.Extents.{Extents}
use whippet.Histogram.{bucket}
use whippet.SplayTree.Contents.{find}
use whippet.LargeObject.Span.{LargeObject, large_object_compare}

pub data TraceKind : Type 0 where
  trace_precisely trace_none trace_conservatively trace_ephemeron : TraceKind

-- `is_live` and the union that it tells apart. A dead node's links are the lists of the quarantine.
pub data Value : Type 0 where
  live : (mark : ℕ) (trace : TraceKind) → Value
  dead : (age : ℕ) → Value

abbrev pub Node : Type 0
Node = LargeObject × Value

abbrev pub nursery_mark : ℕ
nursery_mark = 0

abbrev pub mark_0 : ℕ
mark_0 = 1

-- `^= LARGE_OBJECT_MARK_TOGGLE_BIT`.
abbrev pub toggle : ℕ → ℕ
toggle mark = if mark / 2 % 2 == 0 then mark + 2 else mark - 2

pub record Space : Type 0 where
  pub marked : ℕ
  pub object_tree : List Node
  pub object_map : List ℕ
  pub nursery : List ℕ
  pub quarantine : List (List ℕ)
  pub remembered_edges : List ℕ
  pub extents : Extents
  pub page_size : ℕ
  pub page_size_log2 : ℕ
  pub total_pages : ℕ
  pub free_pages : ℕ
  pub live_pages_at_last_collection : ℕ
  pub pages_freed_by_last_collection : ℕ
  pub synchronous_release : Bool

-- `address_map_contains` and `address_set_contains`.
unfoldable pub contains : ℕ → List ℕ → Bool
contains a [] = false
contains a (b ∷ bs) = if a == b then true else contains a bs

-- `address_map_add` and `address_set_add`.
unfoldable pub add : ℕ → List ℕ → List ℕ
unfolding contains
add a keys = if contains a keys then keys else a ∷ keys

-- A list without one entry.
unfoldable pub erase : ℕ → List ℕ → List ℕ
erase a [] = []
erase a (b ∷ bs) = if a == b then bs else b ∷ erase a bs

-- `address_map_remove` and `address_set_remove`, which trap on a missing key.
unfoldable pub remove : ℕ → List ℕ → Option (List ℕ)
unfolding contains erase
remove a keys = do assert (contains a keys); some (erase a keys)

-- What a pointer to a node points to, and a write through it.
unfoldable pub node_at : ℕ → List Node → Option Node
node_at a [] = none
node_at a (n ∷ ns) = if a == n.0.addr then some n else node_at a ns

unfoldable pub set_node : ℕ → Node → List Node → List Node
set_node a n' [] = []
set_node a n' (n ∷ ns) = if a == n.0.addr then n' ∷ ns else n ∷ set_node a n' ns

abbrev pub pages_in : ℕ → ℕ → ℕ
pages_in page_size_log2 bytes = bytes >>> page_size_log2

unfoldable pub npages : Space → ℕ → ℕ
npages s bytes = word (word (bytes + s.page_size) + word_mod - 1) >>> s.page_size_log2

unfoldable pub size_at_last_collection : Space → ℕ
size_at_last_collection s = word (s.live_pages_at_last_collection <<< s.page_size_log2)

unfoldable pub lookup : Space → ℕ → Option ℕ
unfolding contains
lookup s ref = if contains ref s.object_map then some ref else none

-- The node that starts at a pointer, with its mark and kind of trace, asserted to be live.
unfoldable pub live_data : Node → Option (ℕ × TraceKind)
live_data (key, live mark trace) = some (mark, trace)
live_data (key, dead age) = none

unfoldable pub is_live : Node → Bool
is_live (key, live mark trace) = true
is_live (key, dead age) = false

-- The start of a node that is live, or null, which is 0.
unfoldable pub live_or_null : Option Node → ℕ
unfolding is_live
live_or_null none = 0
live_or_null (some n) = if is_live n then n.0.addr else 0

unfoldable pub object_containing_edge : Space → ℕ → ℕ
object_containing_edge s edge = live_or_null (find large_object_compare edge s.object_tree)

-- A trace plan is a kind, with the size where it is conservative.
pub data TracePlan : Type 0 where
  precise_plan no_plan : TracePlan
  conservative_plan : (size : ℕ) → TracePlan

unfoldable pub plan_for : LargeObject → TraceKind → Option TracePlan
plan_for key trace_precisely = some precise_plan
plan_for key trace_none = some no_plan
plan_for key trace_conservatively = some (conservative_plan key.size)
plan_for key trace_ephemeron = none

unfoldable pub object_trace_plan : Space → ℕ → Option TracePlan
unfolding lookup plan_for live_data
object_trace_plan s ref = do
  ptr ← lookup s ref
  n ← node_at ptr s.object_tree
  (mark, trace) ← live_data n
  plan_for n.0 trace

-- The exchange of the mark, and the count of pages.
unfoldable pub mark_node : Space → ℕ → Node → Option (Bool × Space)
unfolding set_node
mark_node s ptr (key, dead age) = none
mark_node s ptr (key, live mark trace) =
    if mark == s.marked
    then some (false, s)
    else some (
      true,
      record s {
        object_tree = set_node ptr (key, live s.marked trace) s.object_tree;
        live_pages_at_last_collection =
            s.live_pages_at_last_collection + pages_in s.page_size_log2 key.size;
      },
    )

unfoldable pub mark : Space → ℕ → Option (Bool × Space)
unfolding lookup node_at mark_node
mark s ref = elim (lookup s ref) [
  | none ↦ some (false, s)
  | some ptr ↦ do n ← node_at ptr s.object_tree; mark_node s ptr n
]

unfoldable pub is_marked : Space → ℕ → Option Bool
unfolding lookup node_at live_data
is_marked s ref = elim (lookup s ref) [
  | none ↦ some false
  | some ptr ↦ do
    n ← node_at ptr s.object_tree
    (mark, trace) ← live_data n
    some (mark == s.marked)
]

unfoldable pub is_survivor : Space → ℕ → Option Bool
unfolding is_marked contains
is_survivor s ref = do assert (contains ref s.object_map); is_marked s ref

unfoldable pub remember_edge : Space → ℕ → ℕ → Option (Bool × Space)
unfolding is_survivor contains add
remember_edge s obj edge = do
  assert (contains obj s.object_map)
  old ← is_survivor s obj
  if not old
      then some (false, s)
      else if contains edge s.remembered_edges
      then some (false, s)
      else some (true, record s { remembered_edges = add edge s.remembered_edges })

unfoldable pub forget_edge : Space → ℕ → Option Space
unfolding contains remove
forget_edge s edge = do
  assert (contains edge s.remembered_edges)
  edges ← remove edge s.remembered_edges
  some (record s { remembered_edges = edges })

unfoldable pub clear_remembered_edges : Space → Space
clear_remembered_edges s = record s { remembered_edges = [] }

abbrev pub size_class : ℕ → ℕ
size_class size = bucket 63 2 size

unfoldable pub add_to_freelist : Space → ℕ → Option Space
unfolding node_at set_node
add_to_freelist s ptr = do
  n ← node_at ptr s.object_tree
  let idx = size_class n.0.size
  some (record s {
    object_tree = set_node ptr (n.0, dead 0) s.object_tree;
    quarantine = set s.quarantine idx (ptr ∷ get_or s.quarantine idx []);
  })

-- The node is in one list, and is unlinked from it; it is in one exactly if its `prev` is not null.
unfoldable pub unlink : ℕ → List (List ℕ) → Option (List (List ℕ))
unfolding contains erase
unlink ptr [] = none
unlink ptr (b ∷ bs) = elim (contains ptr b) [
  | true ↦ some (erase ptr b ∷ bs)
  | false ↦ do bs' ← unlink ptr bs; some (b ∷ bs')
]
