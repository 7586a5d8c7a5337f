-- ===== src/Ephemeron.antt =====
-- src/gc-ephemeron.c: ephemerons, their chains, and the pending and the resolved ones of a collection.
-- The store holds an ephemeron at each address; null is 0. A chain is walked by its links in the store.
-- The links of a bucket of pending ephemerons, and of the resolved ones, are lists of addresses. What
-- visiting a key or an edge does is an argument: `visit_key` answers whether the key is live, and both
-- may move the object and change the heap. So is the index that the hash of a key is scaled to. A
-- function makes one step, so a compare-and-swap succeeds at once. Addresses of ephemerons stay.
pub mod Sweep
pub mod Shards
pub mod Moves
pub mod Valid
pub mod Trace
pub mod Life
pub mod Chain
pub mod Resolve
mod Tests
use whippet.Base.{
  ℕ, zero, suc, ◌+◌, ◌-◌, ◌*◌, ◌/◌, ◌%◌, ◌^◌, List, [], ◌∷◌, ◌++◌, Option, none, some, Bool, true,
  false, not, if◌then◌else◌, ltb, leb, ◌==◌, ◌>>=◌, ◌>>◌, assert, take, drop, length, get_or, set,
  map,
}

pub data EphemeronState : Type 0 where
  traced claimed pending resolved : EphemeronState

pub record Ephemeron : Type 0 where
  pub state : EphemeronState
  pub epoch : ℕ
  pub chain : ℕ
  pub key : ℕ
  pub value : ℕ

abbrev pub Store : Type 0
Store = ℕ → Ephemeron

abbrev pub write : Store → ℕ → Ephemeron → Store
write store e x = λ a. if a == e then x else store a

unfoldable pub is_state_pending : EphemeronState → Bool
is_state_pending traced = false
is_state_pending claimed = false
is_state_pending pending = true
is_state_pending resolved = false

abbrev pub is_dead : Ephemeron → Bool
is_dead x = x.key == 0

-- `ephemeron_list_follow` on a chain: the first ephemeron that is not dead. The caller writes it to the
-- link that was followed. Fuel is the length of the chain.
unfoldable pub follow_chain : ℕ → Store → ℕ → Option ℕ
follow_chain zero store head = if head == 0 then some 0 else none
follow_chain (suc fuel) store head =
    let rest = follow_chain fuel store (store head).chain in
    if head == 0 then some 0 else if is_dead (store head) then rest else some head

-- Chains whose head is a variable of the embedder's, and the next in a chain.
unfoldable pub chain_push : Store → ℕ → ℕ → ℕ × Store
chain_push store loc e = (e, write store e (record (store e) { chain = loc }))

unfoldable pub chain_head : ℕ → Store → ℕ → Option ℕ
unfolding follow_chain
chain_head fuel store loc = follow_chain fuel store loc

unfoldable pub chain_next : ℕ → Store → ℕ → Option (ℕ × Store)
unfolding follow_chain
chain_next fuel store e = do
  next ← follow_chain fuel store (store e).chain
  some (next, write store e (record (store e) { chain = next }))

unfoldable pub swap_value : Store → ℕ → ℕ → Option (ℕ × Store)
swap_value store e ref = do
  assert (not (ref == 0))
  let prev = (store e).value
  if prev == 0
      then some (prev, store)
      else some (prev, write store e (record (store e) { value = ref }))

unfoldable pub mark_dead : Store → ℕ → Store
mark_dead store e = write store e (record (store e) { key = 0 })

unfoldable pub value_of : Ephemeron → ℕ
value_of x = if is_dead x then 0 else x.value

-- The epoch before the one of the heap.
unfoldable pub init : ℕ → Store → ℕ → ℕ → ℕ → Option Store
init epoch store e key value = do
  assert (not (key == 0))
  assert (not (value == 0))
  some (
      write store e (record {
        state = traced;
        epoch = (epoch + 2 ^ 32 - 1) % 2 ^ 32;
        chain = 0;
        key = key;
        value = value;
      }))

-- A heap with its ephemerons, and those of the collection.
pub record World {ℓ} (Heap : Type ℓ) : Type ℓ where
  pub store : Store
  pub buckets : List (List ℕ)
  pub resolved_list : List ℕ
  pub epoch : ℕ
  pub heap : Heap

-- The buckets of a shard, by the doubles of the source, which are exact for numbers that fit them.
abbrev pub shard_start : ℕ → ℕ → ℕ → ℕ
shard_start nbuckets shard nshards = nbuckets * shard / nshards

-- Sweeping a bucket: what is pending dies.
unfoldable pub sweep_bucket : List ℕ → Store → Store
unfolding is_state_pending
sweep_bucket [] store = store
sweep_bucket (e ∷ es) store =
    let x = store e in
    sweep_bucket es (
      if is_state_pending x.state
      then write store e (record x { key = 0; state = traced })
      else store)

unfoldable pub sweep_buckets : List (List ℕ) → Store → Store
unfolding sweep_bucket
sweep_buckets [] store = store
sweep_buckets (b ∷ bs) store = sweep_buckets bs (sweep_bucket b store)

abbrev pub no_list : List ℕ → List ℕ
no_list b = []

module _ {ℓ} {Heap : Type ℓ} where
  unfoldable pub sweep_pending : World Heap → ℕ → ℕ → Option (World Heap)
  unfolding sweep_buckets
  sweep_pending w shard nshards = do
    assert (ltb shard nshards)
    let start = shard_start (length w.buckets) shard nshards
    let end = shard_start (length w.buckets) (shard + 1) nshards
    let slice = take (end - start) (drop start w.buckets)
    some (record w {
      store = sweep_buckets slice w.store;
      buckets = take start w.buckets ++ map no_list slice ++ drop end w.buckets;
    })

  unfoldable pub maybe_resolve : World Heap → ℕ → World Heap
  unfolding is_state_pending
  maybe_resolve w e =
      let x = w.store e in
      if is_state_pending x.state
      then record w {
        store = write w.store e (record x { state = resolved });
        resolved_list = e ∷ w.resolved_list;
      }
      else w

  unfoldable pub pop_resolved : World Heap → List ℕ × World Heap
  pop_resolved w = (w.resolved_list, record w { resolved_list = [] })

  module _ (visit_key : ℕ → Heap → Bool × ℕ × Heap) (visit : ℕ → Heap → ℕ × Heap)
      (bucket_index : ℕ → ℕ) where
    -- The key of an ephemeron is visited in place.
    unfoldable pub visit_key_of : World Heap → ℕ → Bool × World Heap
    visit_key_of w e =
        let x = w.store e in
        let (live, key, heap) = visit_key x.key w.heap in
        (live, record w { store = write w.store e (record x { key = key }); heap = heap })

    -- A pending ephemeron of a list whose key is the object becomes resolved.
    unfoldable pub resolve_one : ℕ → World Heap → ℕ → World Heap
    unfolding visit_key_of maybe_resolve
    resolve_one obj w e = if obj == (w.store e).key then maybe_resolve (visit_key_of w e).1 e else w

    -- A bucket is followed: links to ephemerons that are not pending are left out.
    unfoldable pub resolve_bucket : ℕ → List ℕ → World Heap → List ℕ × World Heap
    unfolding resolve_one is_state_pending
    resolve_bucket obj [] w = ([], w)
    resolve_bucket obj (e ∷ es) w =
        let is_pending = is_state_pending (w.store e).state in
        let (kept, w') = resolve_bucket obj es (if is_pending then resolve_one obj w e else w) in
        (if is_pending then e ∷ kept else kept, w')

    unfoldable pub resolve_pending : World Heap → ℕ → Option (World Heap)
    unfolding resolve_bucket
    resolve_pending w obj = do
      let idx = bucket_index obj
      assert (ltb idx (length w.buckets))
      let (kept, w') = resolve_bucket obj (get_or w.buckets idx []) w
      some (record w' { buckets = set w'.buckets idx kept })

    unfoldable pub scan_one : World Heap → ℕ → World Heap
    unfolding visit_key_of maybe_resolve
    scan_one w e = let (live, w') = visit_key_of w e in if live then maybe_resolve w' e else w'

    unfoldable pub scan_bucket : List ℕ → World Heap → List ℕ × World Heap
    unfolding scan_one is_state_pending
    scan_bucket [] w = ([], w)
    scan_bucket (e ∷ es) w =
        let is_pending = is_state_pending (w.store e).state in
        let (kept, w') = scan_bucket es (if is_pending then scan_one w e else w) in
        (if is_pending then e ∷ kept else kept, w')

    unfoldable pub scan_buckets : List (List ℕ) → World Heap → List (List ℕ) × World Heap
    unfolding scan_bucket
    scan_buckets [] w = ([], w)
    scan_buckets (b ∷ bs) w =
        let (kept, w') = scan_bucket b w in
        let (kepts, w'') = scan_buckets bs w' in (kept ∷ kepts, w'')

    unfoldable pub scan_pending : World Heap → ℕ → ℕ → Option (World Heap)
    unfolding scan_buckets
    scan_pending w shard nshards = do
      assert (ltb shard nshards)
      let start = shard_start (length w.buckets) shard nshards
      let end = shard_start (length w.buckets) (shard + 1) nshards
      let (kepts, w') = scan_buckets (take (end - start) (drop start w.buckets)) w
      some (record w' { buckets = take start w.buckets ++ kepts ++ drop end w.buckets })

    unfoldable pub trace_resolved : List ℕ → World Heap → World Heap
    trace_resolved [] w = w
    trace_resolved (e ∷ es) w =
        let x = w.store e in
        let (value, heap) = visit x.value w.heap in
        let x' = record x { value = value; state = traced } in
        trace_resolved es (record w { store = write w.store e x'; heap = heap })

    unfoldable pub add_pending : World Heap → ℕ → Option (World Heap)
    add_pending w e = do
      let x = w.store e
      let idx = bucket_index x.key
      assert (ltb idx (length w.buckets))
      some (record w {
        store = write w.store e (record x { state = pending });
        buckets = set w.buckets idx (e ∷ get_or w.buckets idx []);
      })

    -- The ephemeron is claimed, and has the epoch and its chain's next link; its key is looked at.
    unfoldable pub trace_key : World Heap → ℕ → Option (World Heap)
    unfolding visit_key_of add_pending maybe_resolve
    trace_key w e = elim (is_dead (w.store e)) [
      | true ↦ some (record w { store = write w.store e (record (w.store e) { state = traced }) })
      | false ↦
          let (live, w') = visit_key_of w e in
          let x = w'.store e in
          elim live [
            | true ↦
                let (value, heap) = visit x.value w'.heap in
                let x' = record x { value = value; state = traced } in
                some (record w' { store = write w'.store e x'; heap = heap })
            | false ↦ do
              w'' ← add_pending w' e
              let (live', w''') = visit_key_of w'' e
              some (if live' then maybe_resolve w''' e else w''')
          ]
    ]

    unfoldable pub trace_claimed : ℕ → World Heap → ℕ → Option (World Heap)
    unfolding follow_chain trace_key
    trace_claimed fuel w e =
        let x = w.store e in
        elim (x.epoch == w.epoch) [
          | true ↦ some w
          | false ↦ do
            next ← follow_chain fuel w.store x.chain
            let (chain, heap) = visit next w.heap
            let x' = record x { state = claimed; epoch = w.epoch; chain = chain }
            trace_key (record w { store = write w.store e x'; heap = heap }) e
        ]

    unfoldable pub trace_from : EphemeronState → ℕ → World Heap → ℕ → Option (World Heap)
    unfolding trace_claimed
    trace_from traced fuel w e = trace_claimed fuel w e
    trace_from claimed fuel w e = some w
    trace_from pending fuel w e = some w
    trace_from resolved fuel w e = some w

    unfoldable pub trace_ephemeron : ℕ → World Heap → ℕ → Option (World Heap)
    unfolding trace_from
    trace_ephemeron fuel w e = trace_from (w.store e).state fuel w e
