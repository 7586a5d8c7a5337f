-- ===== src/Ephemeron/Valid.antt =====
-- A world of ephemerons between the steps of a collection: what is pending waits in one bucket, what is
-- resolved in the one list.
use whippet.Base.{
  Option, none, some, ℕ, zero, suc, ◌+◌, ◌≤◌, ◌<◌, ◌≡◌, refl, sym, ap, subst, ◌∙◌, List, [], ◌∷◌,
  ◌++◌, Bool, true, false, arith, ◌==◌, ==_iff, length, get_or, set, count, tick, Bool-cases, inl,
  inr,
}
use whippet.Ephemeron.{traced, pending, Ephemeron, write, is_state_pending, World, trace_resolved}
use whippet.Ephemeron.Sweep.{queued}
use whippet.Ephemeron.Moves.{is_state_resolved, Moves}

queued-set :
    (a : ℕ) (bs : List (List ℕ)) (i : ℕ) (b : List ℕ)
    → i < length bs
    → queued a (set bs i b) + count a (get_or bs i []) ≡ queued a bs + count a b
queued-set a [] i b h = absurd (omega arith)
queued-set a (c ∷ bs) zero b h = omega arith
queued-set a (c ∷ bs) (suc i) b h = omega (arith, queued-set a bs i b (omega arith))

pub queued-append :
    (a : ℕ) (bs cs : List (List ℕ)) → queued a (bs ++ cs) ≡ queued a bs + queued a cs
queued-append a [] cs = omega arith
queued-append a (b ∷ bs) cs = omega (arith, queued-append a bs cs)

tick_le : (b : Bool) → tick b ≤ 1
tick_le true = omega arith
tick_le false = omega arith

module _ {ℓ} {Heap : Type ℓ} where
  pub record ValidAt (w : World Heap) (a : ℕ) : Type 0 where
    pub waits : is_state_pending (w.store a).state ≡ true → 0 < queued a w.buckets
    pub once : queued a w.buckets ≤ 1
    pub current : 0 < queued a w.buckets → (w.store a).epoch ≡ w.epoch
    pub listed : count a w.resolved_list ≡ tick (is_state_resolved (w.store a).state)

  abbrev pub IsValid : World Heap → Type 0
  IsValid w = (a : ℕ) → ValidAt w a

  -- A walk that keeps what is pending in the buckets.
  pub walked :
      (w w' : World Heap) (bs : List (List ℕ))
      → IsValid w
      → Moves w w'
      → ((a : ℕ) → queued a bs ≤ queued a w.buckets)
      → ((a : ℕ) → is_state_pending (w'.store a).state ≡ true → queued a bs ≡ queued a w.buckets)
      → IsValid (record w' { buckets = bs })
  walked w w' bs v m fewer all a =
      let p = v a in
      let q = m.at a in
      record {
        waits = λ h. omega (arith, all a h, p.waits (q.was_pending h));
        once = omega (arith, fewer a, p.once);
        current = λ h. q.same_epoch ∙ p.current (omega (arith, fewer a, h)) ∙ sym m.epoch;
        listed = omega (arith, q.listed, p.listed);
      }

  pub moved : (w w' : World Heap) → IsValid w → Moves w w' → IsValid w'
  moved w w' v m =
      subst (λ bs. IsValid (record w' { buckets = bs })) (sym m.buckets)
        (walked w w' w.buckets v m (λ a. omega arith) (λ a h. refl))

  -- One ephemeron is changed, and is in no bucket and in no list.
  pub changed :
      (w : World Heap) (e : ℕ) (x : Ephemeron) (heap : Heap)
      → IsValid w
      → is_state_pending x.state ≡ false
      → is_state_resolved x.state ≡ false
      → is_state_resolved (w.store e).state ≡ false
      → (0 < queued e w.buckets → x.epoch ≡ w.epoch)
      → IsValid (record w { store = write w.store e x; heap = heap })
  changed w e x heap v p r r' c a = elim (Bool-cases (a == e)) [
    | inr other ↦ record {
      waits = rw other ((v a).waits);
      once = (v a).once;
      current = rw other ((v a).current);
      listed = rw other ((v a).listed);
    }
    | inl same ↦
        let here : a ≡ e = (==_iff a e).0 same in
        record {
          waits = rw same (λ h. absurd (cc (h, p)));
          once = (v a).once;
          current = rw same (subst (λ b. 0 < queued b w.buckets → x.epoch ≡ w.epoch) (sym here) c);
          listed =
              rw (same, r)
                ((v a).listed
                  ∙ ap (λ b. tick (is_state_resolved (w.store b).state)) here
                  ∙ ap tick r');
        }
  ]

  pub set_bucket :
      (w w' : World Heap) (i : ℕ) (kept : List ℕ)
      → IsValid w
      → i < length w.buckets
      → Moves w w'
      → ((a : ℕ) → count a kept ≤ count a (get_or w.buckets i []))
      → ((a : ℕ)
          → is_state_pending (w'.store a).state ≡ true
          → count a kept ≡ count a (get_or w.buckets i []))
      → IsValid (record w' { buckets = set w.buckets i kept })
  set_bucket w w' i kept v h m fewer all =
      walked w w' (set w.buckets i kept) v m
        (λ a. omega (arith, queued-set a w.buckets i kept h, fewer a))
        (λ a p. omega (arith, queued-set a w.buckets i kept h, all a p))

  -- The pending ephemeron that is published.
  pub published :
      (w : World Heap) (e i : ℕ)
      → IsValid w
      → i < length w.buckets
      → queued e w.buckets ≡ 0
      → (w.store e).epoch ≡ w.epoch
      → is_state_resolved (w.store e).state ≡ false
      → IsValid (record w {
        store = write w.store e (record (w.store e) { state = pending });
        buckets = set w.buckets i (e ∷ get_or w.buckets i []);
      })
  published w e i v h none_ epoch r a =
      let q = queued-set a w.buckets i (e ∷ get_or w.buckets i []) h in
      elim (Bool-cases (a == e)) [
        | inr other ↦
            let same : queued a (set w.buckets i (e ∷ get_or w.buckets i [])) ≡ queued a w.buckets =
              omega (arith, q, ap tick other) in
            record {
              waits = rw (other, same) ((v a).waits);
              once = rw same ((v a).once);
              current = rw (other, same) ((v a).current);
              listed = rw other ((v a).listed);
            }
        | inl same ↦
            let here : a ≡ e = (==_iff a e).0 same in
            let none' : queued a w.buckets ≡ 0 = ap (λ b. queued b w.buckets) here ∙ none_ in
            let one : queued a (set w.buckets i (e ∷ get_or w.buckets i [])) ≡ 1 =
              omega (arith, q, ap tick same, none') in
            record {
              waits = λ p. omega (arith, one);
              once = omega (arith, one);
              current = rw same (λ p. epoch);
              listed = rw same (
                  (v a).listed
                  ∙ ap (λ b. tick (is_state_resolved (w.store b).state)) here
                  ∙ ap tick r);
            }
      ]

  -- The first of the resolved ones is traced and leaves their list.
  traced_one :
      (w : World Heap) (b : ℕ) (es : List ℕ) (x : Ephemeron) (heap : Heap)
      → x.state ≡ traced
      → x.epoch ≡ (w.store b).epoch
      → IsValid (record w { resolved_list = b ∷ es })
      → IsValid (record w { store = write w.store b x; heap = heap; resolved_list = es })
  unfolding is_state_pending
  traced_one w b es x heap s t v a = elim (Bool-cases (a == b)) [
    | inr other ↦ record {
      waits = rw other ((v a).waits);
      once = (v a).once;
      current = rw other ((v a).current);
      listed = rw other (omega (arith, (v a).listed, ap tick other));
    }
    | inl same ↦
        let here : a ≡ b = (==_iff a b).0 same in
        let none_left : count a es ≡ 0 =
          omega
            (arith, (v a).listed, ap tick same, tick_le (is_state_resolved (w.store a).state)) in
        record {
          waits = rw (same, s) (λ h. absurd (cc h));
          once = (v a).once;
          current = rw same (λ h. t ∙ ap (λ c. (w.store c).epoch) (sym here) ∙ (v a).current h);
          listed = rw (same, s) none_left;
        }
  ]

  -- The resolved ones that are popped are traced, and then no ephemeron is resolved.
  pub traced_all :
      (visit_key : ℕ → Heap → Bool × ℕ × Heap) (visit : ℕ → Heap → ℕ × Heap) (bucket_index : ℕ → ℕ)
      (es : List ℕ) (w : World Heap)
      → w.resolved_list ≡ []
      → IsValid (record w { resolved_list = es })
      → IsValid (trace_resolved visit_key visit bucket_index es w)
  unfolding trace_resolved
  traced_all visit_key visit bucket_index [] w e v =
      subst (λ es. IsValid (record w { resolved_list = es })) (sym e) v
  traced_all visit_key visit bucket_index (b ∷ es) w e v =
      let (value, heap) = visit (w.store b).value w.heap in
      let x : Ephemeron = record (w.store b) { value = value; state = traced } in
      traced_all visit_key visit bucket_index es
        (record w { store = write w.store b x; heap = heap }) e
        (traced_one w b es x heap refl refl v)

  -- A valid world, if any.
  abbrev pub Ok : Option (World Heap) → Type 0
  Ok none = Unit {0}
  Ok (some w) = IsValid w

  pub of_Ok : (out : Option (World Heap)) (w : World Heap) → Ok out → out ≡ some w → IsValid w
  of_Ok out w ok e = subst Ok e ok
