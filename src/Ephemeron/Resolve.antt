-- ===== src/Ephemeron/Resolve.antt =====
-- A key that is found live resolves what waits for it.
use whippet.Base.{
  ℕ, ◌+◌, ◌<◌, ◌≡◌, refl, sym, ap, subst, ◌∙◌, List, [], ◌∷◌, Option, some, Bool, true, false, ◌&&◌,
  arith, ltb, lt→ltb, ◌==◌, ==_refl, ==_iff, if◌then◌else◌, length, length-set, get_or, count,
  Bool-cases, inl, inr,
}
use whippet.Ephemeron.{
  resolved, EphemeronState, Ephemeron, is_state_pending, World, maybe_resolve, visit_key_of,
  resolve_one, resolve_bucket, resolve_pending,
}
use whippet.Ephemeron.Moves.{resolve_bucket-Walks}

-- The state of an ephemeron that stands so many times in the bucket of a key that is found live.
abbrev pick : Bool → EphemeronState → EphemeronState
pick true s = resolved
pick false s = s

abbrev pub awaited : ℕ → Ephemeron → Bool
awaited obj x = is_state_pending x.state && (obj == x.key)

abbrev pub outcome : ℕ → ℕ → Ephemeron → EphemeronState
outcome obj times x = pick (awaited obj x && ltb 0 times) x.state

outcome_none : (obj : ℕ) (x : Ephemeron) → outcome obj 0 x ≡ x.state
outcome_none obj x = elim (Bool-cases (awaited obj x)) [ inl e ↦ rw e refl | inr e ↦ rw e refl ]

outcome_other :
    (obj m n : ℕ) (x : Ephemeron) → awaited obj x ≡ false → outcome obj m x ≡ outcome obj n x
outcome_other obj m n x e = rw e refl

outcome_resolved : (obj n : ℕ) (x : Ephemeron) → x.state ≡ resolved → outcome obj n x ≡ resolved
unfolding is_state_pending
outcome_resolved obj n x e = rw e refl

module _ {ℓ} {Heap : Type ℓ} (visit_key : ℕ → Heap → Bool × ℕ × Heap) (visit : ℕ → Heap → ℕ × Heap)
    (bucket_index : ℕ → ℕ) where
  maybe_resolve_here :
      (w : World Heap) (e : ℕ)
      → is_state_pending (w.store e).state ≡ true
      → ((maybe_resolve w e).store e).state ≡ resolved
  unfolding maybe_resolve
  maybe_resolve_here w e p = rw (p, ==_refl e) refl

  maybe_resolve_other :
      (w : World Heap) (e a : ℕ) → (a == e) ≡ false → (maybe_resolve w e).store a ≡ w.store a
  unfolding maybe_resolve
  maybe_resolve_other w e a n = elim (Bool-cases (is_state_pending (w.store e).state)) [
    | inl p ↦ rw (p, n) refl
    | inr p ↦ rw p refl
  ]

  seen : World Heap → ℕ → World Heap
  seen w e = (visit_key_of visit_key visit bucket_index w e).1

  seen_here : (w : World Heap) (e : ℕ) → ((seen w e).store e).state ≡ (w.store e).state
  unfolding seen visit_key_of
  seen_here w e = rw (==_refl e) refl

  seen_other : (w : World Heap) (e a : ℕ) → (a == e) ≡ false → (seen w e).store a ≡ w.store a
  unfolding seen visit_key_of
  seen_other w e a n = rw n refl

  -- One link.
  abbrev stepped : ℕ → World Heap → ℕ → World Heap
  stepped obj w e =
      if is_state_pending (w.store e).state
      then resolve_one visit_key visit bucket_index obj w e
      else w

  stepped_here :
      (obj : ℕ) (w : World Heap) (e : ℕ)
      → awaited obj (w.store e) ≡ true
      → ((stepped obj w e).store e).state ≡ resolved
  unfolding resolve_one seen
  stepped_here obj w e h = elim (Bool-cases (is_state_pending (w.store e).state)) [
    | inr p ↦ absurd (cc (ap (λ b. b && (obj == (w.store e).key)) (sym p) ∙ h))
    | inl p ↦
        let k : (obj == (w.store e).key) ≡ true =
          ap (λ b. b && (obj == (w.store e).key)) (sym p) ∙ h in
        rw (p, k) (maybe_resolve_here (seen w e) e (ap is_state_pending (seen_here w e) ∙ p))
  ]

  stepped_idle :
      (obj : ℕ) (w : World Heap) (e : ℕ) → awaited obj (w.store e) ≡ false → stepped obj w e ≡ w
  unfolding resolve_one
  stepped_idle obj w e h = elim (Bool-cases (is_state_pending (w.store e).state)) [
    | inr p ↦ rw p refl
    | inl p ↦
        let k : (obj == (w.store e).key) ≡ false =
          ap (λ b. b && (obj == (w.store e).key)) (sym p) ∙ h in
        rw (p, k) refl
  ]

  outcome_here :
      (obj : ℕ) (w : World Heap) (e n : ℕ)
      → outcome obj n ((stepped obj w e).store e) ≡ outcome obj (1 + n) (w.store e)
  unfolding is_state_pending
  outcome_here obj w e n = elim (Bool-cases (awaited obj (w.store e))) [
    | inl h ↦
        outcome_resolved obj n ((stepped obj w e).store e) (stepped_here obj w e h)
        ∙ rw (h, lt→ltb 0 (1 + n) (omega arith)) refl
    | inr h ↦
        ap (λ (u : World Heap). outcome obj n (u.store e)) (stepped_idle obj w e h)
        ∙ outcome_other obj n (1 + n) (w.store e) h
  ]

  stepped_other :
      (obj : ℕ) (w : World Heap) (e a : ℕ)
      → (a == e) ≡ false
      → (stepped obj w e).store a ≡ w.store a
  unfolding resolve_one seen
  stepped_other obj w e a n = elim (Bool-cases (is_state_pending (w.store e).state)) [
    | inr p ↦ rw p refl
    | inl p ↦ elim (Bool-cases (obj == (w.store e).key)) [
      | inr k ↦ rw (p, k) refl
      | inl k ↦ rw (p, k) (maybe_resolve_other (seen w e) e a n ∙ seen_other w e a n)
    ]
  ]

  -- The walk goes on in the world behind each link.
  walk-stepped :
      (obj : ℕ) (w : World Heap) (e : ℕ) (es : List ℕ)
      → (resolve_bucket visit_key visit bucket_index obj (e ∷ es) w).1
        ≡ (resolve_bucket visit_key visit bucket_index obj es (stepped obj w e)).1
  unfolding resolve_bucket
  walk-stepped obj w e es = refl

  resolve_bucket-outcome :
      (obj : ℕ) (es : List ℕ) (w : World Heap) (a : ℕ)
      → ((resolve_bucket visit_key visit bucket_index obj es w).1.store a).state
        ≡ outcome obj (count a es) (w.store a)
  unfolding resolve_bucket
  resolve_bucket-outcome obj [] w a = sym (outcome_none obj (w.store a))
  resolve_bucket-outcome obj (e ∷ es) w a =
      ap (λ (u : World Heap). (u.store a).state) (walk-stepped obj w e es)
      ∙ resolve_bucket-outcome obj es (stepped obj w e) a
      ∙ elim (Bool-cases (a == e)) [
        | inr other ↦ rw other (
            ap (outcome obj (count a es)) (stepped_other obj w e a other)
            ∙ ap (λ n. outcome obj n (w.store a))
                (let z : count a es ≡ 0 + count a es = omega arith in z))
        | inl same ↦
            let here : e ≡ a = sym ((==_iff a e).0 same) in
            rw same (
              subst
                (λ b.
                  outcome obj (count a es) ((stepped obj w e).store b)
                  ≡ outcome obj (1 + count a es) (w.store b))
                here (outcome_here obj w e (count a es)))
      ]

  -- What a key that is found live does to the ephemerons.
  pub record Resolves (obj : ℕ) (w : World Heap) (out : Option (World Heap)) : Type ℓ where
    pub world : World Heap
    pub run : out ≡ some world
    pub states :
        (a : ℕ)
        → (world.store a).state
          ≡ outcome obj (count a (get_or w.buckets (bucket_index obj) [])) (w.store a)
    pub buckets : length world.buckets ≡ length w.buckets

  -- When an object is found to be live, and the index of its bucket is in range, resolving ends with no
  -- assertion failed: exactly the ephemerons that are pending in that bucket with the object as their
  -- key become resolved, and all others keep their state.
  pub resolve_pending-Resolves :
      (obj : ℕ) (w : World Heap)
      → bucket_index obj < length w.buckets
      → Resolves obj w (resolve_pending visit_key visit bucket_index w obj)
  unfolding resolve_pending
  resolve_pending-Resolves obj w h =
      let es = get_or w.buckets (bucket_index obj) [] in
      let k = resolve_bucket-Walks visit_key visit bucket_index obj es w in
      rw (lt→ltb (bucket_index obj) (length w.buckets) h) record {
        world = _;
        run = refl;
        states = λ a. resolve_bucket-outcome obj es w a;
        buckets = length-set _ (bucket_index obj) _ ∙ ap length k.moves.buckets;
      }
