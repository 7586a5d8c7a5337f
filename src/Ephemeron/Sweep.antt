-- ===== src/Ephemeron/Sweep.antt =====
-- The end of a collection: what is still pending dies, whatever shard sweeps it.
use whippet.Base.{
  ℕ, zero, suc, ◌+◌, ◌≡◌, refl, sym, ap, subst, ◌∙◌, List, [], ◌∷◌, Bool, true, false, ◌&&◌, arith,
  ltb, lt→ltb, ◌==◌, ==_iff, ==_refl, if◌then◌else◌, count, tick, Bool-cases, inl, inr,
}
use whippet.Ephemeron.{
  traced, Ephemeron, Store, write, is_state_pending, sweep_bucket, sweep_buckets,
}

-- How often an address stands in the buckets.
abbrev pub queued : ℕ → List (List ℕ) → ℕ
queued a [] = 0
queued a (b ∷ bs) = count a b + queued a bs

abbrev pub dead : Ephemeron → Ephemeron
dead x = record x { key = 0; state = traced }

-- What becomes of an ephemeron that is swept so many times.
abbrev pub kill : Bool → Ephemeron → Ephemeron
kill true x = dead x
kill false x = x

abbrev pub swept : ℕ → Ephemeron → Ephemeron
swept times x = kill (is_state_pending x.state && ltb 0 times) x

pub swept_none : (x : Ephemeron) → swept 0 x ≡ x
swept_none x = elim (Bool-cases (is_state_pending x.state)) [
  | inl e ↦ rw e refl
  | inr e ↦ rw e refl
]

pub swept_again : (m n : ℕ) (x : Ephemeron) → swept n (swept m x) ≡ swept (m + n) x
unfolding is_state_pending
swept_again zero n x =
    ap (swept n) (swept_none x) ∙ ap (λ k. swept k x) (let e : n ≡ 0 + n = omega arith in e)
swept_again (suc m) n x = elim (Bool-cases (is_state_pending x.state)) [
  | inl e ↦ rw (e, lt→ltb 0 (suc m) (omega arith), lt→ltb 0 (suc m + n) (omega arith)) refl
  | inr e ↦ rw (e, e) refl
]

-- One link of a bucket.
sweep_link : ℕ → Store → Store
sweep_link e store =
    if is_state_pending (store e).state then write store e (dead (store e)) else store

sweep_link_here : (e : ℕ) (store : Store) → sweep_link e store e ≡ swept 1 (store e)
unfolding sweep_link
sweep_link_here e store = elim (Bool-cases (is_state_pending (store e).state)) [
  | inl p ↦ rw (p, ==_refl e) refl
  | inr p ↦ rw p refl
]

sweep_link_lem :
    (e : ℕ) (store : Store) (a : ℕ) → sweep_link e store a ≡ swept (tick (a == e)) (store a)
unfolding sweep_link
sweep_link_lem e store a = elim (Bool-cases (a == e)) [
  | inl same ↦
      let p : e ≡ a = sym ((==_iff a e).0 same) in
      subst (λ b. sweep_link e store b ≡ swept (tick (b == e)) (store b)) p
        (rw (==_refl e) (sweep_link_here e store))
  | inr other ↦ elim (Bool-cases (is_state_pending (store e).state)) [
    | inl q ↦ rw (other, q, other) (sym (swept_none (store a)))
    | inr q ↦ rw (other, q) (sym (swept_none (store a)))
  ]
]

sweep_bucket-swept :
    (es : List ℕ) (store : Store) (a : ℕ) → sweep_bucket es store a ≡ swept (count a es) (store a)
unfolding sweep_bucket sweep_link
sweep_bucket-swept [] store a = sym (swept_none (store a))
sweep_bucket-swept (e ∷ es) store a =
    sweep_bucket-swept es (sweep_link e store) a
    ∙ ap (swept (count a es)) (sweep_link_lem e store a)
    ∙ swept_again (tick (a == e)) (count a es) (store a)

pub sweep_buckets-swept :
    (bs : List (List ℕ)) (store : Store) (a : ℕ)
    → sweep_buckets bs store a ≡ swept (queued a bs) (store a)
unfolding sweep_buckets
sweep_buckets-swept [] store a = sym (swept_none (store a))
sweep_buckets-swept (b ∷ bs) store a =
    sweep_buckets-swept bs (sweep_bucket b store) a
    ∙ ap (swept (queued a bs)) (sweep_bucket-swept b store a)
    ∙ swept_again (count a b) (queued a bs) (store a)
