-- ===== src/Ephemeron/Tests.antt =====
-- Runs of ephemerons: one that waits for its key at 40, and a chain with a dead link.
use whippet.Base.{
  ℕ, ◌<◌, ◌≡◌, refl, List, [], ◌∷◌, some, Bool, true, false, arith, ◌==◌, if◌then◌else◌, count,
  Bool-cases, inl, inr,
}
use whippet.Ephemeron.{
  traced, pending, Ephemeron, Store, is_state_pending, World, follow_chain, visit_key_of,
  maybe_resolve, resolve_one, resolve_bucket, resolve_pending, add_pending, trace_key,
  trace_claimed, trace_from, trace_ephemeron, chain_next, init,
}
use whippet.Ephemeron.Sweep.{queued}
use whippet.Ephemeron.Shards.{sweep_shards, Sweeps, sweep_shards-Sweeps}
use whippet.Ephemeron.Valid.{IsValid}
use whippet.Ephemeron.Life.{Step, Steps, Steps-IsValid}
use whippet.Ephemeron.Chain.{Chain, Follows, chain_next-Follows}
use whippet.Ephemeron.Resolve.{Resolves, resolve_pending-Resolves}

-- The heap is the list of the objects that were visited; a key is live if it was.
abbrev visit_key : ℕ → List ℕ → Bool × ℕ × List ℕ
visit_key key heap = (if count key heap == 0 then false else true, key, heap)

abbrev visit : ℕ → List ℕ → ℕ × List ℕ
visit value heap = (value, value ∷ heap)

abbrev bucket_index : ℕ → ℕ
bucket_index key = 1

abbrev idle : Ephemeron
idle = record { state = traced; epoch = 0; chain = 0; key = 0; value = 0 }

abbrev waits : Ephemeron
waits = record { state = pending; epoch = 1; chain = 0; key = 40; value = 48 }

abbrev one_pending : World (List ℕ)
one_pending = record {
  store = λ a. if a == 8 then waits else idle;
  buckets = [] ∷ (8 ∷ []) ∷ [];
  resolved_list = [];
  epoch = 1;
  heap = 40 ∷ [];
}

one_pending-queued :
    (a : ℕ) → is_state_pending (one_pending.store a).state ≡ true → 0 < queued a one_pending.buckets
unfolding is_state_pending
one_pending-queued a = elim (Bool-cases (a == 8)) [
  | inl same ↦ rw same (λ h. omega arith)
  | inr other ↦ rw other (λ h. absurd (cc h))
]

sweep_shards-Sweeps_example : Sweeps one_pending (sweep_shards 3 3 one_pending)
sweep_shards-Sweeps_example = sweep_shards-Sweeps 3 one_pending (omega arith) one_pending-queued

resolve_pending-Resolves_example :
    Resolves visit_key visit bucket_index 40 one_pending
      (resolve_pending visit_key visit bucket_index one_pending 40)
resolve_pending-Resolves_example =
    resolve_pending-Resolves visit_key visit bucket_index 40 one_pending (omega arith)

-- The ephemeron that waits is resolved.
resolves_one :
    elim (resolve_pending visit_key visit bucket_index one_pending 40) [
      | some w ↦ w.resolved_list
      | _ ↦ []
    ]
    ≡ 8 ∷ []
unfolding resolve_pending resolve_bucket resolve_one visit_key_of maybe_resolve is_state_pending
resolves_one = refl

abbrev empty_world : World (List ℕ)
empty_world = record {
  store = λ a. idle;
  buckets = [] ∷ [] ∷ [];
  resolved_list = [];
  epoch = 1;
  heap = [];
}

empty_world-IsValid : IsValid empty_world
unfolding is_state_pending
empty_world-IsValid a = record {
  waits = λ h. absurd (cc h);
  once = omega arith;
  current = λ h. absurd (omega (arith, h));
  listed = refl;
}

abbrev made : Store
made = λ a.
    if a == 8 then record { state = traced; epoch = 0; chain = 0; key = 40; value = 48 } else idle

abbrev made_world : World (List ℕ)
made_world = record empty_world { store = made }

made-Step : Step visit_key visit bucket_index empty_world made_world
unfolding init
made-Step = Step.inits 8 40 48 made refl refl refl

traced-Step :
    (w : World (List ℕ)) × (Step visit_key visit bucket_index made_world w
      × (w.buckets ≡ [] ∷ (8 ∷ []) ∷ []))
unfolding trace_ephemeron trace_from trace_claimed follow_chain trace_key visit_key_of add_pending
    maybe_resolve is_state_pending
traced-Step = (_, (Step.traces 0 8 _ refl, refl))

Steps-IsValid_example : IsValid traced-Step.0
Steps-IsValid_example =
    Steps-IsValid visit_key visit bucket_index empty_world traced-Step.0 empty_world-IsValid (
      Steps.then_step made_world traced-Step.0
        (Steps.then_step empty_world made_world Steps.done made-Step) traced-Step.1.0)

abbrev chained : Store
chained = λ a.
    if a == 8
    then record waits { chain = 16 }
    else if a == 16
    then record idle { chain = 24 }
    else if a == 24
    then waits
    else idle

chained-Chain : Chain chained (chained 8).chain (16 ∷ 24 ∷ [])
chained-Chain =
    Chain.link 16 (24 ∷ []) (λ e. absurd (omega (arith, e)))
      (Chain.link 24 [] (λ e. absurd (omega (arith, e))) Chain.ends)

chain_next-Follows_example : Follows chained 8 (16 ∷ 24 ∷ []) (chain_next 2 chained 8)
chain_next-Follows_example =
    chain_next-Follows 2 chained 8 (16 ∷ 24 ∷ []) chained-Chain (omega arith) refl
