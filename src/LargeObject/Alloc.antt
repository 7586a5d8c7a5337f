-- ===== src/LargeObject/Alloc.antt =====
-- src/large-object-space.h: allocation, from the quarantine or from fresh pages, initialisation, and
-- conservative references. GC_GENERATIONAL, what the platform grants and the displacements that the
-- embedder allows are arguments. The contents of objects are not modelled.
use whippet.Base.{
  ℕ, ◌+◌, ◌-◌, ◌%◌, List, [], ◌∷◌, Option, none, some, Bool, true, false, if◌then◌else◌, ltb, ◌==◌,
  ◌>>=◌, ◌>>◌, assert, not, drop, replicate,
}
use whippet.Base.Word.{word, sub_word, ◌<<<◌}
use whippet.Extents
use whippet.Histogram.{num_size_classes}
use whippet.SplayTree.Contents.{find, put}
use whippet.LargeObject.Span.{LargeObject, large_object_compare}
use whippet.LargeObject.Space.{
  TraceKind, live, dead, nursery_mark, mark_0, Node, Space, add, node_at, set_node, lookup, is_live,
  live_or_null, mark, size_class, add_to_freelist, unlink,
}

-- The first hole of a freelist that is large enough.
unfoldable pub first_fit : List Node → ℕ → List ℕ → Option (Option ℕ)
unfolding node_at
first_fit tree size [] = some none
first_fit tree size (ptr ∷ ptrs) = do
  n ← node_at ptr tree
  elim (ltb n.0.size size) [ true ↦ first_fit tree size ptrs | false ↦ some (some ptr) ]

-- The loop over the size classes, from that of the size on.
unfoldable pub find_hole : List Node → ℕ → List (List ℕ) → Option (Option ℕ)
unfolding first_fit
find_hole tree size [] = some none
find_hole tree size (b ∷ bs) = do
  found ← first_fit tree size b
  elim found [ some ptr ↦ some (some ptr) | none ↦ find_hole tree size bs ]

-- A hole that is too big gives its tail back.
unfoldable pub trim_tail : Space → ℕ → Node → ℕ → Option Space
unfolding set_node add add_to_freelist put
trim_tail s ptr n size = elim (ltb size n.0.size) [
  | false ↦ some s
  | true ↦
      let key : LargeObject = record { addr = n.0.addr; size = size } in
      let tail : LargeObject = record { addr = n.0.addr + size; size = n.0.size - size } in
      let shrunk = set_node ptr (key, n.1) s.object_tree in
      let s' = record s {
        object_tree = put large_object_compare tail.addr tail (dead 0) shrunk;
        object_map = add tail.addr s.object_map;
      } in
      add_to_freelist s' tail.addr
]

abbrev pub add_to_nursery : Bool → ℕ → Space → Space
add_to_nursery true ptr s = record s { nursery = add ptr s.nursery }
add_to_nursery false ptr s = s

-- The hole found in the quarantine is unlinked and becomes an object.
unfoldable pub take_hole : Bool → Space → ℕ → ℕ → ℕ → TraceKind → Option (ℕ × Space)
unfolding unlink node_at is_live set_node trim_tail
take_hole generational s ptr npages size trace = do
  n ← node_at ptr s.object_tree
  assert (not (is_live n))
  quarantine ← unlink ptr s.quarantine
  let n' : Node = (n.0, live nursery_mark trace)
  let s' = record s { quarantine = quarantine; object_tree = set_node ptr n' s.object_tree }
  s'' ← trim_tail s' ptr n' size
  let s''' = add_to_nursery generational ptr s''
  some (ptr, record s''' { free_pages = sub_word s'''.free_pages npages })

-- Fresh pages; the platform answers 0 where it has none.
unfoldable pub fresh_pages : (ℕ → ℕ) → Space → ℕ → ℕ → TraceKind → ℕ × Space
unfolding put add
fresh_pages acquire_memory s npages size trace =
    let addr = acquire_memory size in
    if addr == 0
    then (0, s)
    else let key : LargeObject = record { addr = addr; size = size } in
      (
        addr,
        record s {
          object_tree = put large_object_compare addr key (live nursery_mark trace) s.object_tree;
          object_map = add addr s.object_map;
          total_pages = s.total_pages + npages;
        },
      )

unfoldable pub alloc : Bool → (ℕ → ℕ) → Space → ℕ → TraceKind → Option (ℕ × Space)
unfolding find_hole take_hole fresh_pages
alloc generational acquire_memory s npages trace = do
  let size = word (npages <<< s.page_size_log2)
  found ← find_hole s.object_tree size (drop (size_class size) s.quarantine)
  elim found [
    | some ptr ↦ take_hole generational s ptr npages size trace
    | none ↦ some (fresh_pages acquire_memory s npages size trace)
  ]

-- `__builtin_ctz` of the page size is an argument, as the page size is. Without conservative roots the
-- extents are NULL, and nothing reads them; they stand for that without room for any.
unfoldable pub init : Bool → ℕ → ℕ → Bool → Space
init conservative_roots page_size page_size_log2 has_thread = record {
  marked = mark_0;
  object_tree = [];
  object_map = [];
  nursery = [];
  quarantine = replicate (num_size_classes 63 2) [];
  remembered_edges = [];
  extents = if conservative_roots then Extents.allocate 64 else Extents.allocate 0;
  page_size = page_size;
  page_size_log2 = page_size_log2;
  total_pages = 0;
  free_pages = 0;
  live_pages_at_last_collection = 0;
  pages_freed_by_last_collection = 0;
  synchronous_release = if has_thread then false else true;
}

-- Behind the test of the displacement, where extents tell that a collection runs.
unfoldable pub conservative_start : Space → ℕ → Bool → Option (Option ℕ)
conservative_start s addr possibly_interior = elim (Extents.size s.extents == 0) [
  | true ↦ some (some addr)
  | false ↦ do
    start ← Extents.contain_addr s.extents addr
    if start == 0
        then some none
        else if possibly_interior
        then some (some start)
        else if addr == start
        then some (some addr)
        else some none
]

-- By the map, and where the reference may be interior, by the tree.
unfoldable pub lookup_node : Space → ℕ → Bool → Option (Option Node)
unfolding lookup node_at find
lookup_node s addr possibly_interior = elim (lookup s addr) [
  | some ptr ↦ do n ← node_at ptr s.object_tree; some (some n)
  | none ↦
      if possibly_interior then some (find large_object_compare addr s.object_tree) else some none
]

module _ (is_valid_displacement : ℕ → Bool) where
  -- The address without its displacement, or none where it cannot refer to a large object.
  unfoldable pub strip_displacement : Space → ℕ → Bool → Option ℕ
  strip_displacement s addr true = some addr
  strip_displacement s addr false =
      let displacement = addr % s.page_size in
      if is_valid_displacement displacement then some (addr - displacement) else none

  unfoldable pub lookup_conservative_ref : Space → ℕ → Bool → Option (Option Node)
  unfolding strip_displacement conservative_start lookup_node
  lookup_conservative_ref s ref possibly_interior =
      elim (strip_displacement s ref possibly_interior) [
        | none ↦ some none
        | some addr ↦ do
          start ← conservative_start s addr possibly_interior
          elim start [ none ↦ some none | some addr' ↦ lookup_node s addr' possibly_interior ]
      ]

  unfoldable pub resolve_conservative_ref : Space → ℕ → Bool → Option ℕ
  unfolding lookup_conservative_ref
  resolve_conservative_ref s ref possibly_interior = do
    found ← lookup_conservative_ref s ref possibly_interior
    some (live_or_null found)

  unfoldable pub mark_conservative_ref : Space → ℕ → Bool → Option (ℕ × Space)
  unfolding lookup_conservative_ref is_live mark
  mark_conservative_ref s ref possibly_interior = do
    found ← lookup_conservative_ref s ref possibly_interior
    elim found [
      | none ↦ some (0, s)
      | some n ↦ elim (is_live n) [
        | false ↦ some (0, s)
        | true ↦ do (marked, s') ← mark s n.0.addr; some (if marked then n.0.addr else 0, s')
      ]
    ]
