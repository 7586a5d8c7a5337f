-- ===== src/Ephemeron/Moves.antt =====
-- The walks over buckets of pending ephemerons: what they resolve, and what they keep in the bucket.
use whippet.Base.{
  ℕ, ◌+◌, ◌≤◌, ◌≡◌, refl, sym, ap, subst, ◌∙◌, List, [], ◌∷◌, Bool, true, false, arith, ◌==◌,
  ==_iff, ==_refl, count, tick, Bool-cases, inl, inr,
}
use whippet.Ephemeron.{
  traced, claimed, pending, resolved, EphemeronState, Ephemeron, write, is_state_pending, World,
  maybe_resolve, visit_key_of, resolve_one, resolve_bucket, scan_one, scan_bucket, scan_buckets,
}
use whippet.Ephemeron.Sweep.{queued}

abbrev pub is_state_resolved : EphemeronState → Bool
is_state_resolved traced = false
is_state_resolved claimed = false
is_state_resolved pending = false
is_state_resolved resolved = true

module _ {ℓ} {Heap : Type ℓ} where
  -- Of one ephemeron: it stays pending, or stops to be; each that becomes resolved is listed once.
  pub record MovesAt (w w' : World Heap) (a : ℕ) : Type 0 where
    pub same_epoch : (w'.store a).epoch ≡ (w.store a).epoch
    pub was_pending :
        is_state_pending (w'.store a).state ≡ true → is_state_pending (w.store a).state ≡ true
    pub listed :
        count a w'.resolved_list + tick (is_state_resolved (w.store a).state)
        ≡ count a w.resolved_list + tick (is_state_resolved (w'.store a).state)

  pub record Moves (w w' : World Heap) : Type 0 where
    pub at : (a : ℕ) → MovesAt w w' a
    pub buckets : w'.buckets ≡ w.buckets
    pub epoch : w'.epoch ≡ w.epoch

  pub stays_put : (w : World Heap) → Moves w w
  stays_put w = record {
    at = λ a. record { same_epoch = refl; was_pending = λ p. p; listed = refl };
    buckets = refl;
    epoch = refl;
  }

  pub then-Moves : (w w' w'' : World Heap) → Moves w w' → Moves w' w'' → Moves w w''
  then-Moves w w' w'' m n = record {
    at = λ a.
        let p = m.at a in
        let q = n.at a in
        record {
          same_epoch = q.same_epoch ∙ p.same_epoch;
          was_pending = λ h. p.was_pending (q.was_pending h);
          listed = omega (arith, p.listed, q.listed);
        };
    buckets = n.buckets ∙ m.buckets;
    epoch = n.epoch ∙ m.epoch;
  }

  pub resolves_here :
      (w : World Heap) (e : ℕ)
      → is_state_pending (w.store e).state ≡ true
      → (s : EphemeronState) → (w.store e).state ≡ s
      → is_state_resolved s ≡ false
  unfolding is_state_pending
  resolves_here w e p traced q = refl
  resolves_here w e p claimed q = refl
  resolves_here w e p pending q = refl
  resolves_here w e p resolved q = absurd (cc (ap is_state_pending q, p))

  -- The world with an ephemeron resolved.
  abbrev with_resolved : World Heap → ℕ → World Heap
  with_resolved w e = record w {
    store = write w.store e (record (w.store e) { state = resolved });
    resolved_list = e ∷ w.resolved_list;
  }

  resolved_here :
      (w : World Heap) (e : ℕ)
      → is_state_pending (w.store e).state ≡ true
      → MovesAt w (with_resolved w e) e
  resolved_here w e p = record {
    same_epoch = rw (==_refl e) refl;
    was_pending = λ q. p;
    listed = rw (==_refl e, resolves_here w e p (w.store e).state refl) (omega arith);
  }

  resolved_there : (w : World Heap) (e a : ℕ) → (a == e) ≡ false → MovesAt w (with_resolved w e) a
  resolved_there w e a n = record {
    same_epoch = rw n refl;
    was_pending = rw n (λ p. p);
    listed = rw n (omega arith);
  }

  pub maybe_resolve-Moves : (w : World Heap) (e : ℕ) → Moves w (maybe_resolve w e)
  unfolding maybe_resolve
  maybe_resolve-Moves w e = elim (Bool-cases (is_state_pending (w.store e).state)) [
    | inr other ↦ rw other (stays_put w)
    | inl waits ↦ rw waits record {
      at = λ a. elim (Bool-cases (a == e)) [
        | inr other ↦ resolved_there w e a other
        | inl same ↦
            subst (MovesAt w (with_resolved w e)) (sym ((==_iff a e).0 same))
              (resolved_here w e waits)
      ];
      buckets = refl;
      epoch = refl;
    }
  ]

  -- A change of an ephemeron that keeps its state and its epoch, and of the heap.
  pub rewrites-Moves :
      (w : World Heap) (e : ℕ) (x : Ephemeron) (heap : Heap)
      → x.state ≡ (w.store e).state
      → x.epoch ≡ (w.store e).epoch
      → Moves w (record w { store = write w.store e x; heap = heap })
  rewrites-Moves w e x heap s t = record {
    at = λ a. elim (Bool-cases (a == e)) [
      | inr other ↦ record {
        same_epoch = rw other refl;
        was_pending = rw other (λ p. p);
        listed = rw other refl;
      }
      | inl same ↦
          let there = ap w.store (sym ((==_iff a e).0 same)) in
          record {
            same_epoch = rw same (t ∙ ap (λ (y : Ephemeron). y.epoch) there);
            was_pending = rw same (
                subst (λ u. is_state_pending u ≡ true) (s ∙ ap (λ (y : Ephemeron). y.state) there));
            listed = rw same (
                ap (λ u. count a w.resolved_list + tick (is_state_resolved u))
                  (sym (s ∙ ap (λ (y : Ephemeron). y.state) there)));
          }
    ];
    buckets = refl;
    epoch = refl;
  }

  -- A walk over a bucket: what it keeps there are links to ephemerons, all those still pending among
  -- them.
  pub record Walks (w : World Heap) (es kept : List ℕ) (w' : World Heap) : Type 0 where
    pub moves : Moves w w'
    pub fewer : (a : ℕ) → count a kept ≤ count a es
    pub all : (a : ℕ) → is_state_pending (w'.store a).state ≡ true → count a kept ≡ count a es

  keeps_link :
      (w w' w'' : World Heap) (e : ℕ) (es kept : List ℕ)
      → Moves w w'
      → Walks w' es kept w''
      → Walks w (e ∷ es) (e ∷ kept) w''
  keeps_link w w' w'' e es kept m k = record {
    moves = then-Moves w w' w'' m k.moves;
    fewer = λ a. omega (arith, k.fewer a);
    all = λ a p. omega (arith, k.all a p);
  }

  leaves_out :
      (w w' : World Heap) (e : ℕ) (es kept : List ℕ)
      → is_state_pending (w.store e).state ≡ false
      → Walks w es kept w'
      → Walks w (e ∷ es) kept w'
  leaves_out w w' e es kept n k = record {
    moves = k.moves;
    fewer = λ a. omega (arith, k.fewer a);
    all = λ a p. elim (Bool-cases (a == e)) [
      | inr other ↦ rw other (omega (arith, k.all a p))
      | inl same ↦
          let q = (k.moves.at a).was_pending p in
          let r = ap (λ b. is_state_pending (w.store b).state) ((==_iff a e).0 same) in
          absurd (cc (q, r, n))
    ];
  }

  module _ (visit_key : ℕ → Heap → Bool × ℕ × Heap) (visit : ℕ → Heap → ℕ × Heap)
      (bucket_index : ℕ → ℕ) where
    pub visit_key_of-Moves :
        (w : World Heap) (e : ℕ) → Moves w (visit_key_of visit_key visit bucket_index w e).1
    unfolding visit_key_of
    visit_key_of-Moves w e = rewrites-Moves w e _ _ refl refl

    resolve_one-Moves :
        (obj : ℕ) (w : World Heap) (e : ℕ)
        → Moves w (resolve_one visit_key visit bucket_index obj w e)
    unfolding resolve_one
    resolve_one-Moves obj w e = elim (Bool-cases (obj == (w.store e).key)) [
      | inr other ↦ rw other (stays_put w)
      | inl same ↦
          let w' = (visit_key_of visit_key visit bucket_index w e).1 in
          rw same (
            then-Moves w w' (maybe_resolve w' e) (visit_key_of-Moves w e)
              (maybe_resolve-Moves w' e))
    ]

    scan_one-Moves : (w : World Heap) (e : ℕ) → Moves w (scan_one visit_key visit bucket_index w e)
    unfolding scan_one
    scan_one-Moves w e =
        let (live, w') = visit_key_of visit_key visit bucket_index w e in
        let m = visit_key_of-Moves w e in
        elim (Bool-cases live) [
          | inr other ↦ rw other m
          | inl same ↦ rw same (then-Moves w w' (maybe_resolve w' e) m (maybe_resolve-Moves w' e))
        ]

    pub resolve_bucket-Walks :
        (obj : ℕ) (es : List ℕ) (w : World Heap)
        → let (kept, w') = resolve_bucket visit_key visit bucket_index obj es w in
          Walks w es kept w'
    unfolding resolve_bucket
    resolve_bucket-Walks obj [] w = record {
      moves = stays_put w;
      fewer = λ a. omega arith;
      all = λ a p. refl;
    }
    resolve_bucket-Walks obj (e ∷ es) w = elim (Bool-cases (is_state_pending (w.store e).state)) [
      | inl waits ↦ rw waits (
          keeps_link w _ _ e es _ (resolve_one-Moves obj w e)
            (resolve_bucket-Walks obj es (resolve_one visit_key visit bucket_index obj w e)))
      | inr other ↦ rw other (leaves_out w _ e es _ other (resolve_bucket-Walks obj es w))
    ]

    scan_bucket-Walks :
        (es : List ℕ) (w : World Heap)
        → let (kept, w') = scan_bucket visit_key visit bucket_index es w in Walks w es kept w'
    unfolding scan_bucket
    scan_bucket-Walks [] w = record {
      moves = stays_put w;
      fewer = λ a. omega arith;
      all = λ a p. refl;
    }
    scan_bucket-Walks (e ∷ es) w = elim (Bool-cases (is_state_pending (w.store e).state)) [
      | inl waits ↦ rw waits (
          keeps_link w _ _ e es _ (scan_one-Moves w e)
            (scan_bucket-Walks es (scan_one visit_key visit bucket_index w e)))
      | inr other ↦ rw other (leaves_out w _ e es _ other (scan_bucket-Walks es w))
    ]

    -- The walk over several buckets.
    pub record WalksAll (w : World Heap) (bs kepts : List (List ℕ)) (w' : World Heap) : Type 0 where
      pub moves : Moves w w'
      pub fewer : (a : ℕ) → queued a kepts ≤ queued a bs
      pub all : (a : ℕ) → is_state_pending (w'.store a).state ≡ true → queued a kepts ≡ queued a bs

    pub scan_buckets-WalksAll :
        (bs : List (List ℕ)) (w : World Heap)
        → let (kepts, w') = scan_buckets visit_key visit bucket_index bs w in WalksAll w bs kepts w'
    unfolding scan_buckets
    scan_buckets-WalksAll [] w = record {
      moves = stays_put w;
      fewer = λ a. omega arith;
      all = λ a p. refl;
    }
    scan_buckets-WalksAll (b ∷ bs) w =
        let (kept, w') = scan_bucket visit_key visit bucket_index b w in
        let k = scan_bucket-Walks b w in
        let r = scan_buckets-WalksAll bs w' in
        record {
          moves = then-Moves w w' _ k.moves r.moves;
          fewer = λ a. omega (arith, k.fewer a, r.fewer a);
          all = λ a p. omega (arith, k.all a ((r.moves.at a).was_pending p), r.all a p);
        }
