-- ===== src/Finalizer/Life.antt =====
-- What becomes of a finalizer over its life: it is pending, then fired, then handed back, once.
use whippet.Base.{
  ℕ, ◌+◌, ◌<◌, ◌≡◌, refl, ap, subst, List, [], ◌∷◌, ◌++◌, Option, none, some, Bool, arith, ltb,
  length, set, get_elem?-eq-get_or, All, All-set, All-get_or, Bool-cases, inl, inr, ltb→lt,
}
use whippet.Base.Word.{word_mod}
use whippet.Finalizer.{
  active, Finalizer, FinalizerState, empty_table, attach_internal, is_init, state_pop,
  add_finalizer_to_table, list_pop,
}
use whippet.Finalizer.Tables.{
  weigh, total, TableIsValid, add_finalizer_to_table-weigh, add_finalizer_to_table-IsValid,
}
use whippet.Finalizer.Resolved.{
  weigh-append, table_at, outcome_at, Resolves, resolve_finalizers-Resolves,
}
use whippet.Finalizer.World.{
  is_at, IsFired, World, WorldIsValid, Step, attach, resolve, hand_back, Advances, pending-set,
  resolve-Advances,
}

module _ {ℓ} {Heap : Type ℓ} where
  -- What attaching a finalizer answers.
  data Attaches (state : FinalizerState Heap) (f : Finalizer) (priority : ℕ)
      : Option (FinalizerState Heap) → Type ℓ where
    refused : Attaches state f priority none
    attached :
        priority < length state.tables
        → Attaches state f priority (
            some (record state {
              tables =
                  set state.tables priority (
                    add_finalizer_to_table (table_at state priority) (record f { state = active }));
            }))

  attach_internal-Attaches :
      (state : FinalizerState Heap) (f : Finalizer) (priority : ℕ)
      → Attaches state f priority (attach_internal state f priority)
  unfolding attach_internal
  attach_internal-Attaches state f priority = elim (Bool-cases (is_init f.state)) [
    | inr e ↦ rw e Attaches.refused
    | inl e ↦ elim (Bool-cases (ltb 0 f.object)) [
      | inr e' ↦ rw (e, e') Attaches.refused
      | inl e' ↦ elim (Bool-cases (ltb priority (length state.tables))) [
        | inr q ↦ rw (e, e', q) Attaches.refused
        | inl q ↦
            let h = ltb→lt _ _ q in
            rw (e, e', q, get_elem?-eq-get_or state.tables priority empty_table h)
              (Attaches.attached h)
      ]
    ]
  ]

  attach-Advances :
      (w : World Heap) (f : Finalizer) (priority : ℕ) (state' : FinalizerState Heap)
      → WorldIsValid w
      → total (table_at w.state priority) + 1 < word_mod
      → Attaches w.state f priority (some state')
      → Advances w (f ∷ []) (record w { state = state' })
  attach-Advances w f priority state' v h (attached q) =
      let f' = record f { state = active } in
      let table_valid =
        All-get_or TableIsValid w.state.tables priority empty_table v.tables_valid q in
      let table' = add_finalizer_to_table (table_at w.state priority) f' in
      record {
        valid = record {
          tables_valid =
              All-set TableIsValid w.state.tables priority table' v.tables_valid
                (add_finalizer_to_table-IsValid (table_at w.state priority) f' table_valid refl h);
          fired_valid = v.fired_valid;
          handed_valid = v.handed_valid;
        };
        conserved = λ x. omega (
          arith,
          pending-set x w.state.tables priority table' q,
          add_finalizer_to_table-weigh (is_at x) (table_at w.state priority) f' table_valid,
        );
      }

  data HandsBack (state : FinalizerState Heap)
      : Option Finalizer × FinalizerState Heap → Type ℓ where
    nothing_fired : HandsBack state (none, record state { fired_list = [] })
    popped :
        (f : Finalizer) (rest : List Finalizer)
        → state.fired_list ≡ f ∷ rest
        → HandsBack state (some f, record state { fired_list = rest })

  state_pop-HandsBack :
      (list : List Finalizer) (state : FinalizerState Heap)
      → let s = record state { fired_list = list } in HandsBack s (state_pop s)
  unfolding state_pop list_pop
  state_pop-HandsBack [] state = HandsBack.nothing_fired
  state_pop-HandsBack (f ∷ rest) state = HandsBack.popped f rest refl

  hand_back-Advances :
      (w : World Heap) (f : Finalizer) (state' : FinalizerState Heap)
      → WorldIsValid w
      → HandsBack w.state (some f, state')
      → Advances w [] (record w { state = state'; handed = f ∷ w.handed })
  hand_back-Advances w f state' v (popped g rest e) =
      let (first_fired, rest_fired) = subst (All IsFired) e v.fired_valid in
      record {
        valid = record {
          tables_valid = v.tables_valid;
          fired_valid = rest_fired;
          handed_valid = (first_fired, v.handed_valid);
        };
        conserved = λ x. omega (arith, ap (weigh (is_at x)) e);
      }

module _ {ℓ} {Heap : Type ℓ} (visited : ℕ → Heap → Bool × ℕ × Heap)
    (visit : ℕ → Heap → ℕ × Heap) where
  Step-Advances :
      (w w' : World Heap) (fs : List Finalizer)
      → WorldIsValid w
      → Step visited visit w fs w'
      → Advances w fs w'
  Step-Advances w w' fs v (attach f priority state' e h) =
      attach-Advances w f priority state' v h
        (subst (Attaches w.state f priority) e (attach_internal-Attaches w.state f priority))
  Step-Advances w w' fs v (resolve priority heap count state' heap' e h fits) =
      resolve-Advances visited visit w priority heap count state' heap' v h (
        subst
          (Resolves visited visit w.state priority (outcome_at visited visit w.state priority heap))
          e
          (resolve_finalizers-Resolves visited visit w.state priority heap h
            (All-get_or TableIsValid w.state.tables priority empty_table v.tables_valid h) fits))
  Step-Advances w w' fs v (hand_back f state' e) =
      hand_back-Advances w f state' v
        (subst (HandsBack w.state) e (state_pop-HandsBack w.state.fired_list w.state))

  -- Steps one after another, with all that they attached.
  pub data Steps (w : World Heap) : List Finalizer → World Heap → Type ℓ where
    done : Steps w [] w
    then_step :
        (fs gs : List Finalizer) (w' w'' : World Heap)
        → Steps w fs w'
        → Step visited visit w' gs w''
        → Steps w (fs ++ gs) w''

  -- From a valid world, any steps of attaching, resolving and handing back keep the world valid, so
  -- that pending finalizers are active and the others fired; and each finalizer stands in the tables,
  -- among the fired and among those handed back as often, taken together, as it did at first or was
  -- attached since: none is lost, and one that was nowhere at first and is attached once is handed back
  -- once at most.
  pub Steps-Advances :
      (w w' : World Heap) (fs : List Finalizer) → WorldIsValid w → Steps w fs w' → Advances w fs w'
  Steps-Advances w w' fs v done = record { valid = v; conserved = λ x. omega arith }
  Steps-Advances w w' all v (then_step fs gs u t steps step) =
      let a = Steps-Advances w u fs v steps in
      let b = Step-Advances u t gs a.valid step in
      record {
        valid = b.valid;
        conserved = λ x. omega (arith, a.conserved x, b.conserved x, weigh-append (is_at x) fs gs);
      }
