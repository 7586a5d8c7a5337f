-- ===== src/Ephemeron/Trace.antt =====
-- A tracer's visit of an ephemeron, the resolving of a key and the scan of a shard keep a world valid.
use native.Mathlib.Decide.{dec_lt}
use whippet.Base.{
  ℕ, zero, suc, ◌+◌, ◌-◌, ◌≤◌, ◌≡◌, refl, sym, ap, subst, ◌∙◌, List, [], ◌∷◌, ◌++◌, some, Bool,
  arith, ltb, ltb→lt, ◌==◌, ==_refl, if◌then◌else◌, ◌>>=◌, take, drop, length, get_or, set,
  Bool-cases, Option-cases, inl, inr,
}
use whippet.Ephemeron.{
  traced, claimed, pending, resolved, EphemeronState, Ephemeron, write, is_dead, is_state_pending,
  World, maybe_resolve, follow_chain, visit_key_of, resolve_bucket, resolve_pending, scan_buckets,
  scan_pending, add_pending, trace_key, trace_claimed, trace_from, shard_start,
}
use whippet.Ephemeron.Sweep.{queued}
use whippet.Ephemeron.Shards.{queued_slice, shard-le}
use whippet.Ephemeron.Moves.{
  maybe_resolve-Moves, visit_key_of-Moves, resolve_bucket-Walks, scan_buckets-WalksAll,
}
use whippet.Ephemeron.Valid.{
  IsValid, walked, moved, changed, queued-append, set_bucket, published, Ok,
}

queued-take-drop :
    (a n : ℕ) (bs : List (List ℕ)) → queued a (take n bs) + queued a (drop n bs) ≡ queued a bs
queued-take-drop a zero bs = omega arith
queued-take-drop a (suc n) [] = refl
queued-take-drop a (suc n) (b ∷ bs) = omega (arith, queued-take-drop a n bs)

-- A shard's slice of the buckets is replaced.
queued-replaced :
    (a s t : ℕ) (bs kepts : List (List ℕ))
    → s ≤ t
    → queued a (take s bs ++ kepts ++ drop t bs) + queued a (take (t - s) (drop s bs))
      ≡ queued a bs + queued a kepts
queued-replaced a s t bs kepts h =
    let e : s + (t - s) ≡ t = omega arith in
    omega (
      arith,
      queued-append a (take s bs ++ kepts) (drop t bs),
      queued-append a (take s bs) kepts,
      queued_slice a s (t - s) bs,
      ap (λ n. queued a (take n bs)) e,
      queued-take-drop a t bs,
    )

module _ {ℓ} {Heap : Type ℓ} (visit_key : ℕ → Heap → Bool × ℕ × Heap) (visit : ℕ → Heap → ℕ × Heap)
    (bucket_index : ℕ → ℕ) where
  visit_key_of_lem :
      (w : World Heap) (e : ℕ)
      → let w' = (visit_key_of visit_key visit bucket_index w e).1 in
        ((w'.store e).state ≡ (w.store e).state)
        × ((w'.store e).epoch ≡ (w.store e).epoch)
        × (w'.buckets ≡ w.buckets)
        × (w'.epoch ≡ w.epoch)
  unfolding visit_key_of
  visit_key_of_lem w e = (rw (==_refl e) refl, rw (==_refl e) refl, refl, refl)

  -- An ephemeron that is published, and then found to be live after all.
  published-Ok :
      (w : World Heap) (e : ℕ)
      → IsValid w
      → (w.store e).state ≡ claimed
      → (w.store e).epoch ≡ w.epoch
      → queued e w.buckets ≡ 0
      → Ok (do
        w'' ← add_pending visit_key visit bucket_index w e
        let (live', w''') = visit_key_of visit_key visit bucket_index w'' e
        some (if live' then maybe_resolve w''' e else w'''))
  unfolding add_pending
  published-Ok w e v s c q =
      let i = bucket_index (w.store e).key in
      elim (Bool-cases (ltb i (length w.buckets))) [
        | inr out ↦ rw out tt
        | inl fits ↦
            let w'' = record w {
              store = write w.store e (record (w.store e) { state = pending });
              buckets = set w.buckets i (e ∷ get_or w.buckets i []);
            } in
            let p = published w e i v (ltb→lt i (length w.buckets) fits) q c (rw s refl) in
            let w3 = (visit_key_of visit_key visit bucket_index w'' e).1 in
            let p' = moved w'' w3 p (visit_key_of-Moves visit_key visit bucket_index w'' e) in
            elim (Bool-cases (visit_key_of visit_key visit bucket_index w'' e).0) [
              | inl live ↦ rw (fits, live) (moved w3 _ p' (maybe_resolve-Moves w3 e))
              | inr dead_ ↦ rw (fits, dead_) p'
            ]
      ]

  trace_key-Ok :
      (w : World Heap) (e : ℕ)
      → IsValid w
      → (w.store e).state ≡ claimed
      → (w.store e).epoch ≡ w.epoch
      → queued e w.buckets ≡ 0
      → Ok (trace_key visit_key visit bucket_index w e)
  unfolding trace_key is_state_pending
  trace_key-Ok w e v s c q = elim (Bool-cases (is_dead (w.store e))) [
    | inl gone ↦ rw (trace_key, gone) (changed w e _ w.heap v refl refl (rw s refl) (λ h. c))
    | inr here ↦
        let w' = (visit_key_of visit_key visit bucket_index w e).1 in
        let (s', c', b', t') = visit_key_of_lem w e in
        let v' = moved w w' v (visit_key_of-Moves visit_key visit bucket_index w e) in
        elim (Bool-cases (visit_key_of visit_key visit bucket_index w e).0) [
          | inl live ↦
              rw (trace_key, here, live)
                (changed w' e _ _ v' refl refl (rw (s', s) refl) (λ h. c' ∙ c ∙ sym t'))
          | inr unknown ↦
              rw (trace_key, here, unknown)
                (published-Ok w' e v' (s' ∙ s) (c' ∙ c ∙ sym t') (ap (queued e) b' ∙ q))
        ]
  ]

  trace_claimed-Ok :
      (fuel : ℕ) (w : World Heap) (e : ℕ)
      → IsValid w
      → (w.store e).state ≡ traced
      → Ok (trace_claimed visit_key visit bucket_index fuel w e)
  unfolding trace_claimed is_state_pending
  trace_claimed-Ok fuel w e v s = elim (Bool-cases ((w.store e).epoch == w.epoch)) [
    | inl done_ ↦ rw (trace_claimed, done_) v
    | inr new ↦ elim (Option-cases (follow_chain fuel w.store (w.store e).chain)) [
      | inl long ↦ rw (trace_claimed, new, long, ◌>>=◌) tt
      | inr (next, found) ↦
          let q : queued e w.buckets ≡ 0 = elim (dec_lt 0 (queued e w.buckets)) [
            | yes held ↦ let c = (v e).current held in absurd (ground (arith, c))
            | no free ↦ omega arith
          ] in
          let (chain, heap) = visit next w.heap in
          let x : Ephemeron = record (w.store e) {
            state = claimed;
            epoch = w.epoch;
            chain = chain;
          } in
          let w' = record w { store = write w.store e x; heap = heap } in
          rw (trace_claimed, new, found, ◌>>=◌)
            (trace_key-Ok w' e (changed w e x heap v refl refl (rw s refl) (λ h. refl))
              (rw (==_refl e) refl) (rw (==_refl e) refl) q)
    ]
  ]

  pub trace_from-Ok :
      (s : EphemeronState) (fuel : ℕ) (w : World Heap) (e : ℕ)
      → IsValid w
      → (w.store e).state ≡ s
      → Ok (trace_from visit_key visit bucket_index s fuel w e)
  unfolding trace_from
  trace_from-Ok traced fuel w e v s = trace_claimed-Ok fuel w e v s
  trace_from-Ok claimed fuel w e v s = v
  trace_from-Ok pending fuel w e v s = v
  trace_from-Ok resolved fuel w e v s = v

  pub resolve_pending-Ok :
      (w : World Heap) (obj : ℕ)
      → IsValid w
      → Ok (resolve_pending visit_key visit bucket_index w obj)
  unfolding resolve_pending
  resolve_pending-Ok w obj v =
      let i = bucket_index obj in
      elim (Bool-cases (ltb i (length w.buckets))) [
        | inr out ↦ rw out tt
        | inl fits ↦
            let es = get_or w.buckets i [] in
            let (kept, w') = resolve_bucket visit_key visit bucket_index obj es w in
            let k = resolve_bucket-Walks visit_key visit bucket_index obj es w in
            rw fits (
              subst (λ bs. IsValid (record w' { buckets = set bs i kept })) (sym k.moves.buckets)
                (set_bucket w w' i kept v (ltb→lt i (length w.buckets) fits) k.moves k.fewer k.all))
      ]

  pub scan_pending-Ok :
      (w : World Heap) (shard nshards : ℕ)
      → IsValid w
      → Ok (scan_pending visit_key visit bucket_index w shard nshards)
  unfolding scan_pending
  scan_pending-Ok w shard nshards v = elim (Bool-cases (ltb shard nshards)) [
    | inr out ↦ rw out tt
    | inl fits ↦
        let bs = w.buckets in
        let start = shard_start (length bs) shard nshards in
        let end = shard_start (length bs) (shard + 1) nshards in
        let slice = take (end - start) (drop start bs) in
        let (kepts, w') = scan_buckets visit_key visit bucket_index slice w in
        let k = scan_buckets-WalksAll visit_key visit bucket_index slice w in
        let le = shard-le (length bs) shard nshards (ground arith) in
        rw fits (
          walked w w' (take start bs ++ kepts ++ drop end bs) v k.moves
            (λ a. omega (arith, queued-replaced a start end bs kepts le, k.fewer a))
            (λ a p. omega (arith, queued-replaced a start end bs kepts le, k.all a p)))
  ]
