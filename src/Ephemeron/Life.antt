-- ===== src/Ephemeron/Life.antt =====
-- The steps of a collection and of the mutator, in any order.
use whippet.Base.{
  ℕ, ◌<◌, ◌≡◌, refl, sym, ap, subst, ◌∙◌, [], Option, none, some, Bool, false, arith, ◌==◌, ◌>>=◌,
  count, tick, Bool-cases, Option-cases, inl, inr,
}
use whippet.Ephemeron.{
  Ephemeron, Store, write, is_state_pending, World, follow_chain, resolve_pending, scan_pending,
  pop_resolved, trace_resolved, trace_ephemeron, mark_dead, swap_value, chain_push, chain_next,
  init,
}
use whippet.Ephemeron.Sweep.{queued}
use whippet.Ephemeron.Shards.{sweep_shards, Sweeps, sweep_shards-Sweeps}
use whippet.Ephemeron.Moves.{is_state_resolved, resolves_here, rewrites-Moves}
use whippet.Ephemeron.Valid.{IsValid, moved, changed, traced_all, Ok, of_Ok}
use whippet.Ephemeron.Trace.{trace_from-Ok, resolve_pending-Ok, scan_pending-Ok}

module _ {ℓ} {Heap : Type ℓ} (visit_key : ℕ → Heap → Bool × ℕ × Heap) (visit : ℕ → Heap → ℕ × Heap)
    (bucket_index : ℕ → ℕ) where
  -- A step of a tracer, of the collector, or of the mutator.
  pub data Step (w : World Heap) : World Heap → Type ℓ where
    traces :
        (fuel e : ℕ) (w' : World Heap)
        → trace_ephemeron visit_key visit bucket_index fuel w e ≡ some w'
        → Step w w'
    resolves :
        (obj : ℕ) (w' : World Heap)
        → resolve_pending visit_key visit bucket_index w obj ≡ some w'
        → Step w w'
    scans :
        (shard nshards : ℕ) (w' : World Heap)
        → scan_pending visit_key visit bucket_index w shard nshards ≡ some w'
        → Step w w'
    traces_resolved :
        Step w (trace_resolved visit_key visit bucket_index (pop_resolved w).0 (pop_resolved w).1)
    sweeps :
        (nshards : ℕ) (w' : World Heap)
        → 0 < nshards
        → sweep_shards nshards nshards w ≡ some w'
        → Step w w'
    next_epoch :
        (epoch : ℕ) → ((a : ℕ) → queued a w.buckets ≡ 0) → Step w (record w { epoch = epoch })
    inits :
        (e key value : ℕ) (store : Store)
        → init w.epoch w.store e key value ≡ some store
        → queued e w.buckets ≡ 0
        → count e w.resolved_list ≡ 0
        → Step w (record w { store = store })
    dies : (e : ℕ) → Step w (record w { store = mark_dead w.store e })
    swaps :
        (e ref prev : ℕ) (store : Store)
        → swap_value w.store e ref ≡ some (prev, store)
        → Step w (record w { store = store })
    pushes : (loc e : ℕ) → Step w (record w { store = (chain_push w.store loc e).1 })
    follows :
        (fuel e next : ℕ) (store : Store)
        → chain_next fuel w.store e ≡ some (next, store)
        → Step w (record w { store = store })

  pub data Steps (w : World Heap) : World Heap → Type ℓ where
    done : Steps w w
    then_step : (w' w'' : World Heap) → Steps w w' → Step w' w'' → Steps w w''

  -- A valid store, if any.
  abbrev StoreOk : World Heap → Option (ℕ × Store) → Type 0
  StoreOk w none = Unit {0}
  StoreOk w (some (answer, store)) = IsValid (record w { store = store })

  rewritten :
      (w : World Heap) (e : ℕ) (x : Ephemeron)
      → IsValid w
      → x.state ≡ (w.store e).state
      → x.epoch ≡ (w.store e).epoch
      → IsValid (record w { store = write w.store e x })
  rewritten w e x v s t = moved w _ v (rewrites-Moves w e x w.heap s t)

  swap_value-Ok : (w : World Heap) (e ref : ℕ) → IsValid w → StoreOk w (swap_value w.store e ref)
  unfolding swap_value
  swap_value-Ok w e ref v = elim (Bool-cases (ref == 0)) [
    | inl null ↦ rw (swap_value, null) tt
    | inr ref_ ↦ elim (Bool-cases ((w.store e).value == 0)) [
      | inl gone ↦ rw (swap_value, ref_, gone) v
      | inr held ↦ rw (swap_value, ref_, held) (rewritten w e _ v refl refl)
    ]
  ]

  abbrev InitOk : World Heap → Option Store → Type 0
  InitOk w none = Unit {0}
  InitOk w (some store) = IsValid (record w { store = store })

  -- A new ephemeron, at an address that is in no bucket and not resolved.
  init-Ok :
      (w : World Heap) (e key value : ℕ)
      → IsValid w
      → queued e w.buckets ≡ 0
      → count e w.resolved_list ≡ 0
      → InitOk w (init w.epoch w.store e key value)
  unfolding init is_state_pending
  init-Ok w e key value v q c = elim (Bool-cases (key == 0)) [
    | inl null ↦ rw (init, null) tt
    | inr k ↦ elim (Bool-cases (value == 0)) [
      | inl null ↦ rw (init, k, null) tt
      | inr l ↦
          let r : is_state_resolved (w.store e).state ≡ false =
            elim (Bool-cases (is_state_resolved (w.store e).state)) [
              | inl listed ↦ absurd (omega (arith, (v e).listed, c, ap tick listed))
              | inr other ↦ other
            ] in
          rw (init, k, l) (changed w e _ w.heap v refl refl r (λ h. absurd (omega (arith, q, h))))
    ]
  ]

  chain_next-Ok :
      (fuel : ℕ) (w : World Heap) (e : ℕ) → IsValid w → StoreOk w (chain_next fuel w.store e)
  unfolding chain_next
  chain_next-Ok fuel w e v = elim (Option-cases (follow_chain fuel w.store (w.store e).chain)) [
    | inl long ↦ rw (chain_next, long, ◌>>=◌) tt
    | inr (next, found) ↦ rw (chain_next, found, ◌>>=◌) (rewritten w e _ v refl refl)
  ]

  swept-IsValid :
      (w w' : World Heap) (out : Option (World Heap))
      → IsValid w
      → Sweeps w out
      → out ≡ some w'
      → IsValid w'
  unfolding is_state_pending
  swept-IsValid w w' out v s e = subst Ok (sym s.run ∙ e) (λ a.
      let quiet = s.empty a in
      elim (Bool-cases (is_state_pending (w.store a).state)) [
        | inl waits ↦ record {
          waits = rw (s.dies a waits) (λ h. absurd (cc h));
          once = omega (arith, quiet);
          current = λ h. absurd (omega (arith, quiet, h));
          listed = rw (s.dies a waits) (
              ap (count a) s.same.0
              ∙ (v a).listed
              ∙ ap tick (resolves_here w a waits (w.store a).state refl));
        }
        | inr other ↦ record {
          waits = rw (s.stays a other) (λ h. absurd (cc (h, other)));
          once = omega (arith, quiet);
          current = λ h. absurd (omega (arith, quiet, h));
          listed = rw (s.stays a other) (ap (count a) s.same.0 ∙ (v a).listed);
        }
      ])

  Step-IsValid : (w w' : World Heap) → IsValid w → Step w w' → IsValid w'
  unfolding trace_ephemeron pop_resolved mark_dead chain_push
  Step-IsValid w w' v (traces fuel e u run) =
      of_Ok _ u (trace_from-Ok visit_key visit bucket_index (w.store e).state fuel w e v refl) run
  Step-IsValid w w' v (resolves obj u run) =
      of_Ok _ u (resolve_pending-Ok visit_key visit bucket_index w obj v) run
  Step-IsValid w w' v (scans shard nshards u run) =
      of_Ok _ u (scan_pending-Ok visit_key visit bucket_index w shard nshards v) run
  Step-IsValid w w' v traces_resolved =
      traced_all visit_key visit bucket_index w.resolved_list (record w { resolved_list = [] }) refl
        v
  Step-IsValid w w' v (sweeps nshards u pos run) =
      swept-IsValid w u _ v (sweep_shards-Sweeps nshards w pos (λ a. (v a).waits)) run
  Step-IsValid w w' v (next_epoch epoch quiet) = λ a. record {
    waits = (v a).waits;
    once = (v a).once;
    current = λ h. absurd (omega (arith, quiet a, h));
    listed = (v a).listed;
  }
  Step-IsValid w w' v (inits e key value store run q c) =
      subst (InitOk w) run (init-Ok w e key value v q c)
  Step-IsValid w w' v (dies e) = rewritten w e _ v refl refl
  Step-IsValid w w' v (swaps e ref prev store run) = subst (StoreOk w) run (swap_value-Ok w e ref v)
  Step-IsValid w w' v (pushes loc e) = rewritten w e _ v refl refl
  Step-IsValid w w' v (follows fuel e next store run) =
      subst (StoreOk w) run (chain_next-Ok fuel w e v)

  -- However the steps of tracers, collector and mutator follow each other, in a valid world every pending
  -- ephemeron waits in one bucket, once, and every resolved one stands once in the list of those; what is
  -- in a bucket was found in this epoch, so no later claim resets it.
  pub Steps-IsValid : (w w' : World Heap) → IsValid w → Steps w w' → IsValid w'
  Steps-IsValid w w' v done = v
  Steps-IsValid w w' v (then_step u u' ss s) = Step-IsValid u u' (Steps-IsValid w u v ss) s
