-- ===== src/Finalizer/Resolved.antt =====
-- Resolving one priority of a finalizer state.
use whippet.Base.{
  ℕ, ◌+◌, ◌<◌, ◌≡◌, refl, sym, ◌∙◌, ap, subst, List, [], ◌∷◌, ◌++◌, Option, some, Bool, arith, ltb,
  length, set, get_or, get_elem?-eq-get_or, get_or-set_self, set-get_or, All, All-append,
  Bool-cases, inl, inr, ◌>>=◌, lt→ltb,
}
use whippet.Base.Word.{word_mod}
use whippet.Finalizer.{Finalizer, FinalizerState, Table, Resolving, empty_table, resolve_finalizers}
use whippet.Finalizer.Tables.{
  weigh, weigh_buckets, weigh_table, one, total, IsActive, TableIsValid, empty_table-IsValid,
}
use whippet.Finalizer.Resolve.{
  Outcome, outcome, concat, rev_append, SortsAll, sorted, resolve_bucket-Sorts,
  resolve_buckets-concat,
}

pub weigh-append :
    (w : Finalizer → ℕ) (a b : List Finalizer) → weigh w (a ++ b) ≡ weigh w a + weigh w b
weigh-append w [] b = omega arith
weigh-append w (f ∷ a) b = omega (arith, weigh-append w a b)

pub weigh-concat :
    (w : Finalizer → ℕ) (bs : List (List Finalizer)) → weigh w (concat bs) ≡ weigh_buckets w bs
weigh-concat w [] = refl
weigh-concat w (b ∷ bs) = omega (arith, weigh-append w b (concat bs), weigh-concat w bs)

pub weigh-one : (fs : List Finalizer) → weigh one fs ≡ length fs
weigh-one [] = refl
weigh-one (f ∷ fs) = omega (arith, weigh-one fs)

pub All-concat :
    (P : Finalizer → Type 0) (bs : List (List Finalizer)) → All (All P) bs → All P (concat bs)
All-concat P [] a = tt
All-concat P (b ∷ bs) a = All-append P b (concat bs) a.0 (All-concat P bs a.1)

empty_of_length : (fs : List Finalizer) → length fs ≡ 0 → fs ≡ []
empty_of_length [] h = refl
empty_of_length (f ∷ fs) h = absurd (omega arith)

abbrev pub table_at {ℓ} : {Heap : Type ℓ} → FinalizerState Heap → ℕ → Table
table_at state priority = get_or state.tables priority empty_table

module _ {ℓ} {Heap : Type ℓ} (visited : ℕ → Heap → Bool × ℕ × Heap)
    (visit : ℕ → Heap → ℕ × Heap) where
  abbrev pub outcome_at : FinalizerState Heap → ℕ → Heap → Outcome Heap
  outcome_at state priority heap =
      outcome visited visit (concat (table_at state priority).buckets) heap

  -- What resolving the finalizers of a priority did, by their outcome.
  pub record Resolved (state : FinalizerState Heap) (priority : ℕ) (o : Outcome Heap) (count : ℕ)
      (state' : FinalizerState Heap) (heap' : Heap) : Type ℓ where
    pub how_many : count ≡ length o.gone
    pub table_valid : TableIsValid (table_at state' priority)
    pub stay : (w : Finalizer → ℕ) → weigh_table w (table_at state' priority) ≡ weigh w o.kept
    pub rebuilt : state'.tables ≡ set state.tables priority (table_at state' priority)
    pub fire : state'.fired_list ≡ rev_append o.gone state.fired_list
    pub this_cycle : state'.fired_this_cycle ≡ state.fired_this_cycle + count
    pub last_heap : heap' ≡ o.heap

  pub data Resolves (state : FinalizerState Heap) (priority : ℕ) (o : Outcome Heap)
      : Option (ℕ × FinalizerState Heap × Heap) → Type ℓ where
    resolved :
        (count : ℕ) (state' : FinalizerState Heap) (heap' : Heap)
        → Resolved state priority o count state' heap'
        → Resolves state priority o (some (count, state', heap'))

  -- The table is rebuilt, and the loop's counts go into the state.
  resolve-rebuilt :
      (state : FinalizerState Heap) (priority : ℕ) (heap : Heap) (o : Outcome Heap)
      (out : Option (Resolving Heap))
      → priority < length state.tables
      → SortsAll o
          (record {
            scratch = empty_table;
            fired_so_far = state.fired_list;
            finalizers_fired = 0;
            heap = heap;
          })
          out
      → Resolves state priority o (
          out >>= λ r. some (
            r.finalizers_fired,
            record state {
              tables = set state.tables priority r.scratch;
              fired_list = r.fired_so_far;
              fired_this_cycle = state.fired_this_cycle + r.finalizers_fired;
            },
            r.heap,
          ))
  resolve-rebuilt state priority heap o out h (sorted r s) =
      let self = get_or-set_self state.tables priority r.scratch empty_table h in
      Resolves.resolved _ _ _ record {
        how_many = omega (arith, s.counted);
        table_valid = subst TableIsValid (sym self) s.scratch_valid;
        stay = λ w. ap (weigh_table w) self ∙ s.stay w ∙ zero_add (weigh w o.kept);
        rebuilt = ap (set state.tables priority) (sym self);
        fire = s.fire;
        this_cycle = refl;
        last_heap = s.last_heap;
      }
    where
      zero_add : (n : ℕ) → 0 + n ≡ n
      zero_add n = omega arith

  resolve-idle :
      (state : FinalizerState Heap) (priority : ℕ) (heap : Heap)
      → TableIsValid (table_at state priority)
      → concat (table_at state priority).buckets ≡ []
      → Resolves state priority (outcome_at state priority heap) (some (0, state, heap))
  resolve-idle state priority heap v e =
      subst (λ fs. Resolves state priority (outcome visited visit fs heap) (some (0, state, heap)))
        (sym e)
        (Resolves.resolved 0 state heap record {
          how_many = refl;
          table_valid = v;
          stay = λ w. sym (weigh-concat w (table_at state priority).buckets) ∙ ap (weigh w) e;
          rebuilt = sym (set-get_or state.tables priority empty_table);
          fire = refl;
          this_cycle = omega arith;
          last_heap = refl;
        })

  -- Resolving the finalizers of a priority whose table is valid and holds fewer than 2^64 of them
  -- passes every assertion. It visits each once, bucket by bucket: exactly those whose objects were
  -- reached stay, in a table that is valid again, the others fire in that order and are counted, and
  -- the tables of other priorities are left alone.
  pub resolve_finalizers-Resolves :
      (state : FinalizerState Heap) (priority : ℕ) (heap : Heap)
      → priority < length state.tables
      → TableIsValid (table_at state priority)
      → total (table_at state priority) < word_mod
      → Resolves state priority
          (outcome_at state priority heap)
          (resolve_finalizers visited visit state priority heap)
  unfolding resolve_finalizers
  resolve_finalizers-Resolves state priority heap h v fits =
      let table = table_at state priority in
      let len = sym (weigh-one (concat table.buckets)) ∙ weigh-concat one table.buckets in
      elim (Bool-cases (ltb 0 table.finalizer_count)) [
        | inl e ↦
            rw
              (
                lt→ltb _ _ h,
                get_elem?-eq-get_or state.tables priority empty_table h,
                ◌>>=◌,
                e,
                resolve_buckets-concat visited visit table.buckets (record {
                  scratch = empty_table;
                  fired_so_far = state.fired_list;
                  finalizers_fired = 0;
                  heap = heap;
                }),
              )
              (resolve-rebuilt state priority heap _ _ h (
                resolve_bucket-Sorts visited visit (concat table.buckets) _
                  (All-concat IsActive table.buckets v.all_active) empty_table-IsValid
                  (omega (arith, len))))
        | inr e ↦
            rw (lt→ltb _ _ h, get_elem?-eq-get_or state.tables priority empty_table h, ◌>>=◌, e)
              (resolve-idle state priority heap v
                (empty_of_length (concat table.buckets) (ground (arith, len, v.counts))))
      ]
