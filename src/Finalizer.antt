-- ===== src/Finalizer.antt =====
-- src/gc-finalizer.c: finalizers, their tables by priority, and the list of those that fired. A list
-- linked by `next` is a list of finalizers by value, each with the address of its object in `addr`. A
-- reference is a number, and 0 is null. Each atomic push, pop or addition is one step.
pub mod Tables
pub mod Resolve
pub mod Resolved
pub mod World
pub mod Life
mod Tests
use whippet.Base.{
  ℕ, zero, suc, ◌+◌, ◌%◌, List, [], ◌∷◌, ◌++◌, Option, none, some, Bool, true, false, if◌then◌else◌,
  ltb, ◌==◌, ◌>>=◌, ◌>>◌, assert, get_or, get_elem?, set, length, replicate,
}
use whippet.Base.Word.{word}

pub data State : Type 0 where
  init : State
  active : State
  fired : State

abbrev pub is_init : State → Bool
is_init init = true
is_init active = false
is_init fired = false

abbrev pub is_active : State → Bool
is_active init = false
is_active active = true
is_active fired = false

pub record Finalizer : Type 0 where
  pub addr : ℕ
  pub state : State
  pub object : ℕ
  pub closure : ℕ

abbrev pub bucket_count : ℕ
bucket_count = 32

pub record Table : Type 0 where
  pub finalizer_count : ℕ
  pub buckets : List (List Finalizer)

-- The callback is the embedder's, on its heap.
pub record FinalizerState {ℓ} (Heap : Type ℓ) : Type ℓ where
  pub have_finalizers : Option (ℕ → Heap → Heap)
  pub fired_list : List Finalizer
  pub fired_this_cycle : ℕ
  pub tables : List Table

abbrev pub empty_table : Table
empty_table = record { finalizer_count = 0; buckets = replicate bucket_count [] }

unfoldable pub list_push : List Finalizer → Finalizer → List Finalizer
list_push list head = head ∷ list

unfoldable pub list_pop : List Finalizer → Option Finalizer × List Finalizer
list_pop [] = (none, [])
list_pop (head ∷ next) = (some head, next)

unfoldable pub add_finalizer_to_table : Table → Finalizer → Table
unfolding list_push
add_finalizer_to_table table f =
    let count = table.finalizer_count in
    let idx = count % bucket_count in
    record {
      finalizer_count = word (count + 1);
      buckets = set table.buckets idx (list_push (get_or table.buckets idx []) f);
    }

unfoldable pub init_internal : Finalizer → ℕ → ℕ → Option Finalizer
init_internal f object closure = do
  assert (is_init f.state)
  assert (f.object == 0)
  some (record f { object = object; closure = closure })

unfoldable pub externally_activated : Finalizer → Option Finalizer
externally_activated f = do assert (is_init f.state); some (record f { state = active })

-- What a finalizer's visitor is shown.
pub data Edge : Type 0 where
  object_edge : Edge
  closure_edge : Edge
  next_edge : Edge

unfoldable pub trace_finalizer : Finalizer → List Edge
trace_finalizer f =
    if is_active f.state
    then closure_edge ∷ next_edge ∷ []
    else object_edge ∷ closure_edge ∷ next_edge ∷ []

-- The locations that hold the heads of the lists.
pub data RootEdge : Type 0 where
  bucket_edge : ℕ → ℕ → RootEdge
  fired_edge : RootEdge

unfoldable pub bucket_edges : ℕ → ℕ → ℕ → List RootEdge
bucket_edges tidx bidx zero = []
bucket_edges tidx bidx (suc n) = bucket_edge tidx bidx ∷ bucket_edges tidx (bidx + 1) n

unfoldable pub table_roots : ℕ → List Table → ℕ × List RootEdge
unfolding bucket_edges
table_roots tidx [] = (0, [])
table_roots tidx (table ∷ tables) =
    let (count, edges) = table_roots (tidx + 1) tables in
    if ltb 0 table.finalizer_count
    then (table.finalizer_count + count, bucket_edges tidx 0 bucket_count ++ edges)
    else (count, edges)

unfoldable pub add_fired_finalizer : List Finalizer → Finalizer → Option (List Finalizer)
unfolding list_push
add_fired_finalizer fired_list f = do
  assert (is_active f.state)
  some (list_push fired_list (record f { state = fired }))

-- What `gc_resolve_finalizers` has so far.
pub record Resolving {ℓ} (Heap : Type ℓ) : Type ℓ where
  pub scratch : Table
  pub fired_so_far : List Finalizer
  pub finalizers_fired : ℕ
  pub heap : Heap

module _ {ℓ} {Heap : Type ℓ} where
  unfoldable pub make_finalizer_state : ℕ → FinalizerState Heap
  make_finalizer_state ntables = record {
    have_finalizers = none;
    fired_list = [];
    fired_this_cycle = 0;
    tables = replicate ntables empty_table;
  }

  unfoldable pub attach_internal :
      FinalizerState Heap → Finalizer → ℕ → Option (FinalizerState Heap)
  unfolding add_finalizer_to_table
  attach_internal state f priority = do
    assert (is_init f.state)
    assert (ltb 0 f.object)
    assert (ltb priority (length state.tables))
    table ← get_elem? state.tables priority
    some (record state {
      tables =
          set state.tables priority (add_finalizer_to_table table (record f { state = active }));
    })

  unfoldable pub state_pop : FinalizerState Heap → Option Finalizer × FinalizerState Heap
  unfolding list_pop
  state_pop state =
      let (head, rest) = list_pop state.fired_list in (head, record state { fired_list = rest })

  unfoldable pub externally_fired : FinalizerState Heap → Finalizer → Option (FinalizerState Heap)
  unfolding add_fired_finalizer
  externally_fired state f = do
    fired_list ← add_fired_finalizer state.fired_list f
    some (record state { fired_list = fired_list })

  unfoldable pub visit_finalizer_roots : FinalizerState Heap → ℕ × List RootEdge
  unfolding table_roots
  visit_finalizer_roots state =
      let (count, edges) = table_roots 0 state.tables in (count, edges ++ fired_edge ∷ [])

  -- `visited` is `gc_visit_ephemeron_key`, and `visit` shades; both can move the object.
  module _ (visited : ℕ → Heap → Bool × ℕ × Heap) (visit : ℕ → Heap → ℕ × Heap) where
    unfoldable pub resolve_one : Finalizer → Resolving Heap → Option (Resolving Heap)
    unfolding add_finalizer_to_table add_fired_finalizer
    resolve_one f r =
        let (live, object, heap) = visited f.object r.heap in
        let f' = record f { object = object } in
        elim live [
          | true ↦ some (record r { scratch = add_finalizer_to_table r.scratch f'; heap = heap })
          | false ↦ do
            let (moved, shaded) = visit object heap
            fired_list ← add_fired_finalizer r.fired_so_far (record f { object = moved })
            some (record r {
              fired_so_far = fired_list;
              finalizers_fired = r.finalizers_fired + 1;
              heap = shaded;
            })
        ]

    unfoldable pub resolve_bucket : List Finalizer → Resolving Heap → Option (Resolving Heap)
    unfolding resolve_one
    resolve_bucket [] r = some r
    resolve_bucket (f ∷ next) r = do r' ← resolve_one f r; resolve_bucket next r'

    unfoldable pub resolve_buckets :
        List (List Finalizer) → Resolving Heap → Option (Resolving Heap)
    unfolding resolve_bucket
    resolve_buckets [] r = some r
    resolve_buckets (b ∷ bs) r = do r' ← resolve_bucket b r; resolve_buckets bs r'

    unfoldable pub resolve_finalizers :
        FinalizerState Heap → ℕ → Heap → Option (ℕ × FinalizerState Heap × Heap)
    unfolding resolve_buckets
    resolve_finalizers state priority heap = do
      assert (ltb priority (length state.tables))
      table ← get_elem? state.tables priority
      elim (ltb 0 table.finalizer_count) [
        | false ↦ some (0, state, heap)
        | true ↦ do
          r ← resolve_buckets table.buckets (record {
            scratch = empty_table;
            fired_so_far = state.fired_list;
            finalizers_fired = 0;
            heap = heap;
          })
          some (
            r.finalizers_fired,
            record state {
              tables = set state.tables priority r.scratch;
              fired_list = r.fired_so_far;
              fired_this_cycle = state.fired_this_cycle + r.finalizers_fired;
            },
            r.heap,
          )
      ]

  unfoldable pub notify_finalizers : FinalizerState Heap → Heap → FinalizerState Heap × Heap
  notify_finalizers state heap = elim state.have_finalizers [
    | none ↦ (state, heap)
    | some callback ↦
        if ltb 0 state.fired_this_cycle
        then (record state { fired_this_cycle = 0 }, callback state.fired_this_cycle heap)
        else (state, heap)
  ]

  unfoldable pub set_callback : FinalizerState Heap → Option (ℕ → Heap → Heap) → FinalizerState Heap
  set_callback state callback = record state { have_finalizers = callback }
