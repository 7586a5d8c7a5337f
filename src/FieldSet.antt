-- ===== src/FieldSet.antt =====
-- src/field-set.h: the remembered set of a generational collector, as lists of edge buffers. A
-- buffer's live part is the list of its edges, so `size` is its length. Each atomic push or pop is
-- one step: the loop around the exchange repeats until it succeeds. No buffer is in two lists, so a
-- list holds its buffers by value.
pub mod Edges
pub mod Visit
mod Tests
use whippet.Base.{
  ℕ, zero, suc, ◌+◌, ◌-◌, ◌≤◌, ◌<◌, ◌≡◌, List, [], ◌∷◌, ◌++◌, Option, none, some, Bool, true, false,
  ltb, ◌==◌, if◌then◌else◌, ◌>>=◌, ◌>>◌, assert, length, get_or, set, take,
}

abbrev pub edge_buffer_capacity : ℕ
edge_buffer_capacity = 510

-- An edge is the address of a field.
pub record EdgeBuffer : Type 0 where
  pub edges : List ℕ

abbrev pub size : EdgeBuffer → ℕ
size buf = length buf.edges

pub record FieldSet : Type 0 where
  pub full : List EdgeBuffer
  pub partly_full : List EdgeBuffer
  pub empty : List EdgeBuffer

unfoldable pub list_push : List EdgeBuffer → EdgeBuffer → List EdgeBuffer
list_push list buf = buf ∷ list

unfoldable pub list_pop : List EdgeBuffer → Option (EdgeBuffer × List EdgeBuffer)
list_pop [] = none
list_pop (head ∷ next) = some (head, next)

unfoldable pub init : FieldSet
init = record { full = []; partly_full = []; empty = [] }

unfoldable pub acquire_buffer : FieldSet → EdgeBuffer × FieldSet
unfolding list_pop
acquire_buffer s = elim (list_pop s.empty) [
  | some (ret, rest) ↦ (ret, record s { empty = rest })
  | none ↦ elim (list_pop s.partly_full) [
    | some (ret, rest) ↦ (ret, record s { partly_full = rest })
    | none ↦ (record { edges = [] }, s)
  ]
]

unfoldable pub release_buffer : FieldSet → EdgeBuffer → FieldSet
unfolding list_push
release_buffer s buf =
    if size buf == edge_buffer_capacity
    then record s { full = list_push s.full buf }
    else record s { partly_full = list_push s.partly_full buf }

-- Pops until the list is empty; the result is what was popped, in order.
unfoldable pub drain : List EdgeBuffer → List EdgeBuffer
drain [] = []
drain (buf ∷ rest) = buf ∷ drain rest

-- The roots handed to the tracer, in order, and the set that is left.
unfoldable pub add_roots : FieldSet → List EdgeBuffer × FieldSet
unfolding drain
add_roots s = (drain s.partly_full ++ drain s.full, record s { partly_full = []; full = [] })

-- `buf->edges[i] = buf->edges[--buf->size]`.
unfoldable pub replace_by_last : List ℕ → ℕ → List ℕ
replace_by_last edges i =
    let last = length edges - 1 in take last (set edges i (get_or edges last 0))

module _ {ℓ} {Heap : Type ℓ} where
  abbrev pub forget_edges : (ℕ → Heap → Heap) → List ℕ → Heap → Heap
  forget_edges forget [] heap = heap
  forget_edges forget (e ∷ es) heap = forget_edges forget es (forget e heap)

  -- One of the two loops of `gc_field_set_clear`, over the buffers that were taken off.
  unfoldable pub clear_buffers :
      Option (ℕ → Heap → Heap) → List EdgeBuffer → List EdgeBuffer → Heap → List EdgeBuffer × Heap
  unfolding list_push
  clear_buffers forget [] empty heap = (empty, heap)
  clear_buffers none (buf ∷ rest) empty heap =
      clear_buffers none rest (list_push empty (record { edges = [] })) heap
  clear_buffers (some forget) (buf ∷ rest) empty heap =
      clear_buffers (some forget) rest (list_push empty (record { edges = [] }))
        (forget_edges forget buf.edges heap)

  -- `forget` is the collector's callback, and NULL is `none`.
  unfoldable pub clear : FieldSet → Option (ℕ → Heap → Heap) → Heap → FieldSet × Heap
  unfolding clear_buffers
  clear s forget heap =
      let (empty, heap') = clear_buffers forget s.partly_full s.empty heap in
      let (empty', heap'') = clear_buffers forget s.full empty heap' in
      (record { full = []; partly_full = []; empty = empty' }, heap'')

  -- The loop of `gc_field_set_visit_edge_buffer`; `none` is fuel that ran out.
  pub visit_loop : ℕ → (ℕ → Heap → Bool × Heap) → ℕ → List ℕ → Heap → Option (List ℕ × Heap)
  visit_loop zero visit i edges heap = none
  visit_loop (suc fuel) visit i edges heap = elim (ltb i (length edges)) [
    | false ↦ some (edges, heap)
    | true ↦
        let (keep, heap') = visit (get_or edges i 0) heap in
        let next = visit_loop fuel visit (i + 1) edges heap' in
        let drop = visit_loop fuel visit i (replace_by_last edges i) heap' in
        if keep then next else drop
  ]

  pub visit_edge_buffer :
      FieldSet → EdgeBuffer → (ℕ → Heap → Bool × Heap) → Heap → Option (FieldSet × Heap)
  visit_edge_buffer s buf visit heap = do
    (edges, heap') ← visit_loop (suc (size buf)) visit 0 buf.edges heap
    some (release_buffer s (record { edges = edges }), heap')

-- A writer's buffer, with the set that it writes to threaded through.
pub record Writer : Type 0 where
  pub buf : Option EdgeBuffer

unfoldable pub writer_init : Writer
writer_init = record { buf = none }

unfoldable pub writer_release_buffer : Writer → FieldSet → Writer × FieldSet
unfolding release_buffer
writer_release_buffer w s = elim w.buf [
  | none ↦ (w, s)
  | some buf ↦ (record { buf = none }, release_buffer s buf)
]

-- Behind the test for a buffer: the assertion, the store, and the hand-over of a full buffer.
unfoldable pub write_edge : EdgeBuffer → FieldSet → ℕ → Option (Writer × FieldSet)
unfolding list_push
write_edge buf s edge = do
  assert (ltb (size buf) edge_buffer_capacity)
  let buf' : EdgeBuffer = record { edges = buf.edges ++ edge ∷ [] }
  if size buf' == edge_buffer_capacity
      then some (record { buf = none }, record s { full = list_push s.full buf' })
      else some (record { buf = some buf' }, s)

unfoldable pub writer_add_edge : Writer → FieldSet → ℕ → Option (Writer × FieldSet)
unfolding write_edge acquire_buffer
writer_add_edge w s edge = elim w.buf [
  | none ↦ let (buf, s') = acquire_buffer s in write_edge buf s' edge
  | some buf ↦ write_edge buf s edge
]
