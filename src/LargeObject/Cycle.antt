-- ===== src/LargeObject/Cycle.antt =====
-- src/large-object-space.h: allocation, the start and the end of a collection, the quarantine, and
-- conservative references. The lock that a collection holds is taken at its start and released at its
-- end. GC_GENERATIONAL, the kinds of roots, the platform's memory and its pages are arguments.
use whippet.Base.{
  ℕ, ◌+◌, ◌%◌, ◌^◌, List, [], ◌∷◌, ◌++◌, Option, none, some, Bool, true, false, if◌then◌else◌, ltb,
  ◌==◌, ◌>>=◌, length,
}
use whippet.Base.Word.{sub_word, ◌<<<◌}
use whippet.Extents.{Extents}
use whippet.Extents
use whippet.Histogram.{num_size_classes}
use whippet.SplayTree.Contents.{delete}
use whippet.LargeObject.Span.{LargeObject, large_object_compare}
use whippet.LargeObject.Space.{
  live, dead, Node, toggle, Space, remove, node_at, set_node, add_to_freelist,
}

abbrev num_classes : ℕ
num_classes = num_size_classes 63 2

-- Extents, for conservative roots: the tree in order.
unfoldable pub append_extents : List Node → Extents → Option Extents
append_extents [] e = some e
append_extents (n ∷ ns) e = do e' ← Extents.append e n.0.addr n.0.size; append_extents ns e'

unfoldable pub prepare_extents : Space → Option Space
unfolding append_extents
prepare_extents s = do
  e ← append_extents s.object_tree (Extents.prepare s.extents (length s.object_map))
  some (record s { extents = e })

-- A minor collection keeps the mark; a major one turns to the other, and counts afresh.
unfoldable pub start_mark : Space → Bool → Space
start_mark s true = s
start_mark s false = record s { marked = toggle s.marked; live_pages_at_last_collection = 0 }

unfoldable pub start_gc : Bool → Space → Bool → Option Space
unfolding prepare_extents start_mark
start_gc conservative_roots s is_minor_gc = elim conservative_roots [
  | true ↦ do s' ← prepare_extents s; some (start_mark s' is_minor_gc)
  | false ↦ some (start_mark s is_minor_gc)
]

unfoldable pub sweep_node : Space → ℕ → Node → Option Space
unfolding add_to_freelist
sweep_node s ptr (key, dead age) = some s
sweep_node s ptr (key, live m trace) = if m == s.marked then some s else add_to_freelist s ptr

unfoldable pub sweep_one : Space → ℕ → Option Space
unfolding sweep_node node_at
sweep_one s ptr = do n ← node_at ptr s.object_tree; sweep_node s ptr n

-- `address_map_for_each` with the sweep, over the keys of a map in its order.
unfoldable pub sweep_all : List ℕ → Space → Option Space
unfolding sweep_one
sweep_all [] s = some s
sweep_all (ptr ∷ ptrs) s = do s' ← sweep_one s ptr; sweep_all ptrs s'

-- The age of a node, asserted to be dead, a round later.
unfoldable pub next_age : Node → Option ℕ
next_age (key, live m trace) = none
next_age (key, dead age) = some ((age + 1) % 256)

-- A freelist of the quarantine: what is kept of it, and the spans released to the platform.
unfoldable pub process_list : List ℕ → Space → Option (List ℕ × List LargeObject × Space)
unfolding next_age node_at set_node remove delete
process_list [] s = some ([], [], s)
process_list (ptr ∷ ptrs) s = do
  n ← node_at ptr s.object_tree
  age ← next_age n
  elim (ltb age 2) [
    | true ↦ do
      let s' = record s { object_tree = set_node ptr (n.0, dead age) s.object_tree }
      (kept, released, s'') ← process_list ptrs s'
      some (ptr ∷ kept, released, s'')
    | false ↦ do
      object_map ← remove n.0.addr s.object_map
      let s' = record s {
        object_map = object_map;
        object_tree = delete large_object_compare n.0.addr s.object_tree;
      }
      (kept, released, s'') ← process_list ptrs s'
      some (kept, n.0 ∷ released, s'')
  ]

unfoldable pub process_lists :
    List (List ℕ) → Space → Option (List (List ℕ) × List LargeObject × Space)
unfolding process_list
process_lists [] s = some ([], [], s)
process_lists (b ∷ bs) s = do
  (kept, released, s') ← process_list b s
  (kepts, releaseds, s'') ← process_lists bs s'
  some (kept ∷ kepts, released ++ releaseds, s'')

unfoldable pub process_quarantine : Space → Option (List LargeObject × Space)
unfolding process_lists
process_quarantine s = do
  (kepts, released, s') ← process_lists s.quarantine s
  some (released, record s' { quarantine = kepts })

-- The counts at the end of a collection.
unfoldable pub count_pages : Space → Space
count_pages s =
    let free_pages = sub_word s.total_pages s.live_pages_at_last_collection in
    record s {
      pages_freed_by_last_collection = sub_word free_pages s.free_pages;
      free_pages = free_pages;
    }

-- The sweep, and what becomes of the nursery.
unfoldable pub sweep : Bool → Space → Bool → Option Space
unfolding sweep_all
sweep true s is_minor_gc = do
  s' ← sweep_all (if is_minor_gc then s.nursery else s.object_map) s
  some (record s' { nursery = [] })
sweep false s is_minor_gc = sweep_all s.object_map s

unfoldable pub clear_extents : Bool → Space → Space
clear_extents true s = record s { extents = Extents.clear s.extents }
clear_extents false s = s

unfoldable pub finish_gc : Bool → Bool → Space → Bool → Option (List LargeObject × Space)
unfolding sweep count_pages process_quarantine clear_extents
finish_gc generational conservative_roots s is_minor_gc = do
  s' ← sweep generational (clear_extents conservative_roots s) is_minor_gc
  let s'' = count_pages s'
  elim s''.synchronous_release [ true ↦ process_quarantine s'' | false ↦ some ([], s'') ]

unfoldable pub add_to_allocation_counter : Space → ℕ → ℕ
add_to_allocation_counter s counter =
    let pages = sub_word (sub_word s.total_pages s.free_pages) s.live_pages_at_last_collection in
    (counter + (pages <<< s.page_size_log2)) % 2 ^ 64
