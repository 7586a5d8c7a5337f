-- ===== src/Finalizer/Resolve.antt =====
-- Resolving a table: the finalizers of live objects stay, those of the others fire, in order.
use whippet.Base.{
  ℕ, ◌+◌, ◌<◌, ◌≡◌, refl, sym, ◌∙◌, List, [], ◌∷◌, ◌++◌, Option, none, some, Bool, true, false,
  arith, length, All, Bool-cases, inl, inr, ◌>>=◌,
}
use whippet.Base.Word.{word_mod}
use whippet.Finalizer.{
  fired, Finalizer, Resolving, add_fired_finalizer, list_push, resolve_one, resolve_bucket,
  resolve_buckets, add_finalizer_to_table,
}
use whippet.Finalizer.Tables.{
  weigh, weigh_table, one, total, IsActive, TableIsValid, add_finalizer_to_table-weigh,
  add_finalizer_to_table-IsValid,
}

-- The finalizers that stay and those that fire, in the order of the visit.
pub record Outcome {ℓ} (Heap : Type ℓ) : Type ℓ where
  pub kept : List Finalizer
  pub gone : List Finalizer
  pub heap : Heap

abbrev pub concat : List (List Finalizer) → List Finalizer
concat [] = []
concat (b ∷ bs) = b ++ concat bs

abbrev pub rev_append : List Finalizer → List Finalizer → List Finalizer
rev_append [] gs = gs
rev_append (f ∷ fs) gs = rev_append fs (f ∷ gs)

-- What the loop over some finalizers did, by their outcome.
pub record Sorts {ℓ} {Heap : Type ℓ} (o : Outcome Heap) (r : Resolving Heap) (r' : Resolving Heap)
    : Type ℓ where
  pub scratch_valid : TableIsValid r'.scratch
  pub stay :
      (w : Finalizer → ℕ) → weigh_table w r'.scratch ≡ weigh_table w r.scratch + weigh w o.kept
  pub fire : r'.fired_so_far ≡ rev_append o.gone r.fired_so_far
  pub counted : r'.finalizers_fired ≡ r.finalizers_fired + length o.gone
  pub last_heap : r'.heap ≡ o.heap

pub data SortsAll {ℓ} {Heap : Type ℓ} (o : Outcome Heap) (r : Resolving Heap)
    : Option (Resolving Heap) → Type ℓ where
  sorted : (r' : Resolving Heap) → Sorts o r r' → SortsAll o r (some r')

stays {ℓ} :
    {Heap : Type ℓ} (f : Finalizer) (heap : Heap) (o : Outcome Heap) (r : Resolving Heap)
    (out : Option (Resolving Heap))
    → TableIsValid r.scratch
    → SortsAll o (record r { scratch = add_finalizer_to_table r.scratch f; heap = heap }) out
    → SortsAll (record o { kept = f ∷ o.kept }) r out
stays f heap o r out v (sorted r' s) = SortsAll.sorted r' record {
  scratch_valid = s.scratch_valid;
  stay = λ w. omega (arith, s.stay w, add_finalizer_to_table-weigh w r.scratch f v);
  fire = s.fire;
  counted = s.counted;
  last_heap = s.last_heap;
}

fires {ℓ} :
    {Heap : Type ℓ} (f : Finalizer) (heap : Heap) (o : Outcome Heap) (r : Resolving Heap)
    (out : Option (Resolving Heap))
    → SortsAll o
        (record r {
          fired_so_far = f ∷ r.fired_so_far;
          finalizers_fired = r.finalizers_fired + 1;
          heap = heap;
        })
        out
    → SortsAll (record o { gone = f ∷ o.gone }) r out
fires f heap o r out (sorted r' s) = SortsAll.sorted r' record {
  scratch_valid = s.scratch_valid;
  stay = s.stay;
  fire = s.fire;
  counted = omega (arith, s.counted);
  last_heap = s.last_heap;
}

module _ {ℓ} {Heap : Type ℓ} (visited : ℕ → Heap → Bool × ℕ × Heap)
    (visit : ℕ → Heap → ℕ × Heap) where
  abbrev pub outcome : List Finalizer → Heap → Outcome Heap
  outcome [] heap = record { kept = []; gone = []; heap = heap }
  outcome (f ∷ fs) heap = elim (visited f.object heap).0 [
    | true ↦
        let rest = outcome fs (visited f.object heap).2 in
        record rest { kept = record f { object = (visited f.object heap).1 } ∷ rest.kept }
    | false ↦
        let shaded = visit (visited f.object heap).1 (visited f.object heap).2 in
        let rest = outcome fs shaded.1 in
        record rest { gone = record f { object = shaded.0; state = fired } ∷ rest.gone }
  ]

  pub resolve_bucket-Sorts :
      (fs : List Finalizer) (r : Resolving Heap)
      → All IsActive fs
      → TableIsValid r.scratch
      → total r.scratch + length fs < word_mod
      → SortsAll (outcome fs r.heap) r (resolve_bucket visited visit fs r)
  unfolding resolve_bucket resolve_one add_fired_finalizer list_push
  resolve_bucket-Sorts [] r a v h = SortsAll.sorted r record {
    scratch_valid = v;
    stay = λ w. omega arith;
    fire = refl;
    counted = omega arith;
    last_heap = refl;
  }
  resolve_bucket-Sorts (f ∷ fs) r a v h = elim (Bool-cases (visited f.object r.heap).0) [
    | inl e ↦
        let f' = record f { object = (visited f.object r.heap).1 } in
        let heap = (visited f.object r.heap).2 in
        let sum = add_finalizer_to_table-weigh one r.scratch f' v in
        rw (resolve_one, outcome, e)
          (stays f' heap (outcome fs heap) r _ v (
            resolve_bucket-Sorts fs
              (record r { scratch = add_finalizer_to_table r.scratch f'; heap = heap }) a.1
              (add_finalizer_to_table-IsValid r.scratch f' v a.0 (omega arith)) (omega arith)))
    | inr e ↦
        let shaded = visit (visited f.object r.heap).1 (visited f.object r.heap).2 in
        let f' = record f { object = shaded.0; state = fired } in
        rw (resolve_one, outcome, e, a.0)
          (fires f' shaded.1 (outcome fs shaded.1) r _ (
            resolve_bucket-Sorts fs
              (record r {
                fired_so_far = f' ∷ r.fired_so_far;
                finalizers_fired = r.finalizers_fired + 1;
                heap = shaded.1;
              })
              a.1 v (omega arith)))
  ]

  after_append :
      (a b : List Finalizer) (out : Option (Resolving Heap))
      → ((r : Resolving Heap)
          → resolve_bucket visited visit (a ++ b) r
            ≡ (resolve_bucket visited visit a r >>= λ r'. resolve_bucket visited visit b r'))
      → (out >>= λ r. resolve_bucket visited visit (a ++ b) r) ≡ (
          (out >>= λ r. resolve_bucket visited visit a r) >>= λ r'.
          resolve_bucket visited visit b r')
  after_append a b none h = refl
  after_append a b (some r) h = h r

  resolve_bucket-append :
      (a b : List Finalizer) (r : Resolving Heap)
      → resolve_bucket visited visit (a ++ b) r
        ≡ (resolve_bucket visited visit a r >>= λ r'. resolve_bucket visited visit b r')
  unfolding resolve_bucket
  resolve_bucket-append [] b r = refl
  resolve_bucket-append (f ∷ a) b r =
      after_append a b (resolve_one visited visit f r) (resolve_bucket-append a b)

  after_concat :
      (bs : List (List Finalizer)) (out : Option (Resolving Heap))
      → ((r : Resolving Heap)
          → resolve_buckets visited visit bs r ≡ resolve_bucket visited visit (concat bs) r)
      → (out >>= λ r. resolve_buckets visited visit bs r)
        ≡ (out >>= λ r. resolve_bucket visited visit (concat bs) r)
  after_concat bs none h = refl
  after_concat bs (some r) h = h r

  pub resolve_buckets-concat :
      (bs : List (List Finalizer)) (r : Resolving Heap)
      → resolve_buckets visited visit bs r ≡ resolve_bucket visited visit (concat bs) r
  unfolding resolve_buckets resolve_bucket
  resolve_buckets-concat [] r = refl
  resolve_buckets-concat (b ∷ bs) r =
      after_concat bs (resolve_bucket visited visit b r) (resolve_buckets-concat bs)
      ∙ sym (resolve_bucket-append b (concat bs) r)
