-- ===== src/Finalizer/World.antt =====
-- The finalizers of a world, pending, fired and handed back, and the steps that move them.
use whippet.Base.{
  ℕ, zero, suc, ◌+◌, ◌<◌, ◌≡◌, refl, sym, ap, subst, List, [], ◌∷◌, some, Bool, arith, ◌==◌, tick,
  length, set, get_or, All, All-set, Bool-cases, inl, inr,
}
use whippet.Base.Word.{word_mod}
use whippet.Finalizer.{
  fired, Finalizer, FinalizerState, Table, empty_table, resolve_finalizers, attach_internal,
  state_pop,
}
use whippet.Finalizer.Tables.{weigh, weigh_table, total, TableIsValid}
use whippet.Finalizer.Resolve.{outcome, concat, rev_append}
use whippet.Finalizer.Resolved.{weigh-concat, table_at, outcome_at, Resolves, resolved}

-- How many finalizers of the address stand in a list, in a table, anywhere in a state.
abbrev pub is_at : ℕ → Finalizer → ℕ
is_at x f = tick (x == f.addr)

abbrev pub pending : ℕ → List Table → ℕ
pending x [] = 0
pending x (t ∷ ts) = weigh_table (is_at x) t + pending x ts

abbrev pub IsFired : Finalizer → Type 0
IsFired f = f.state ≡ fired

-- The state, and the finalizers that were handed back to the mutator.
pub record World {ℓ} (Heap : Type ℓ) : Type ℓ where
  pub state : FinalizerState Heap
  pub handed : List Finalizer

abbrev pub anywhere {ℓ} : {Heap : Type ℓ} → ℕ → World Heap → ℕ
anywhere x w =
    pending x w.state.tables + weigh (is_at x) w.state.fired_list + weigh (is_at x) w.handed

pub record WorldIsValid {ℓ} {Heap : Type ℓ} (w : World Heap) : Type ℓ where
  pub tables_valid : All TableIsValid w.state.tables
  pub fired_valid : All IsFired w.state.fired_list
  pub handed_valid : All IsFired w.handed

-- What a step or several did: nothing is lost or doubled, and what fired stays so.
pub record Advances {ℓ} {Heap : Type ℓ} (w : World Heap) (fs : List Finalizer) (w' : World Heap)
    : Type ℓ where
  pub valid : WorldIsValid w'
  pub conserved : (x : ℕ) → anywhere x w' ≡ anywhere x w + weigh (is_at x) fs

pub pending-set :
    (x : ℕ) (ts : List Table) (i : ℕ) (t : Table)
    → i < length ts
    → pending x (set ts i t) + weigh_table (is_at x) (get_or ts i empty_table)
      ≡ pending x ts + weigh_table (is_at x) t
pending-set x [] i t h = absurd (omega arith)
pending-set x (u ∷ ts) zero t h = omega arith
pending-set x (u ∷ ts) (suc i) t h = omega (arith, pending-set x ts i t (omega arith))

weigh-rev_append :
    (w : Finalizer → ℕ) (a b : List Finalizer) → weigh w (rev_append a b) ≡ weigh w a + weigh w b
weigh-rev_append w [] b = omega arith
weigh-rev_append w (f ∷ a) b = omega (arith, weigh-rev_append w a (f ∷ b))

All-rev_append :
    (P : Finalizer → Type 0) (a b : List Finalizer) → All P a → All P b → All P (rev_append a b)
All-rev_append P [] b h k = k
All-rev_append P (f ∷ a) b h k = All-rev_append P a (f ∷ b) h.1 (h.0, k)

module _ {ℓ} {Heap : Type ℓ} (visited : ℕ → Heap → Bool × ℕ × Heap)
    (visit : ℕ → Heap → ℕ × Heap) where
  pub outcome-weigh :
      (x : ℕ) (fs : List Finalizer) (heap : Heap)
      → let o = outcome visited visit fs heap in
        weigh (is_at x) o.kept + weigh (is_at x) o.gone ≡ weigh (is_at x) fs
  outcome-weigh x [] heap = refl
  outcome-weigh x (f ∷ fs) heap = elim (Bool-cases (visited f.object heap).0) [
    | inl e ↦ rw (outcome, e) (omega (arith, outcome-weigh x fs (visited f.object heap).2))
    | inr e ↦
        rw (outcome, e)
          (omega (
            arith,
            outcome-weigh x fs (visit (visited f.object heap).1 (visited f.object heap).2).1,
          ))
  ]

  pub outcome-IsFired :
      (fs : List Finalizer) (heap : Heap) → All IsFired (outcome visited visit fs heap).gone
  outcome-IsFired [] heap = tt
  outcome-IsFired (f ∷ fs) heap = elim (Bool-cases (visited f.object heap).0) [
    | inl e ↦ rw (outcome, e) (outcome-IsFired fs (visited f.object heap).2)
    | inr e ↦
        rw (outcome, e)
          (refl, outcome-IsFired fs (visit (visited f.object heap).1 (visited f.object heap).2).1)
  ]

  -- A step of the mutator or the collector, with the finalizers that it attached. No table comes to
  -- hold 2^64 finalizers, which no memory can hold.
  pub data Step (w : World Heap) : List Finalizer → World Heap → Type ℓ where
    attach :
        (f : Finalizer) (priority : ℕ) (state' : FinalizerState Heap)
        → attach_internal w.state f priority ≡ some state'
        → total (table_at w.state priority) + 1 < word_mod
        → Step w (f ∷ []) (record w { state = state' })
    resolve :
        (priority : ℕ) (heap : Heap) (count : ℕ) (state' : FinalizerState Heap) (heap' : Heap)
        → resolve_finalizers visited visit w.state priority heap ≡ some (count, state', heap')
        → priority < length w.state.tables
        → total (table_at w.state priority) < word_mod
        → Step w [] (record w { state = state' })
    hand_back :
        (f : Finalizer) (state' : FinalizerState Heap)
        → state_pop w.state ≡ (some f, state')
        → Step w [] (record w { state = state'; handed = f ∷ w.handed })

  pub resolve-Advances :
      (w : World Heap) (priority : ℕ) (heap : Heap) (count : ℕ) (state' : FinalizerState Heap)
      (heap' : Heap)
      → WorldIsValid w
      → priority < length w.state.tables
      → Resolves visited visit w.state priority
          (outcome_at visited visit w.state priority heap)
          (some (count, state', heap'))
      → Advances w [] (record w { state = state' })
  resolve-Advances w priority heap count state' heap' v h (resolved c s t r) =
      let table = table_at w.state priority in
      let fs = concat table.buckets in
      let o = outcome visited visit fs heap in
      record {
        valid = record {
          tables_valid =
              subst (All TableIsValid) (sym r.rebuilt)
                (All-set TableIsValid w.state.tables priority _ v.tables_valid r.table_valid);
          fired_valid = subst (All IsFired) (sym r.fire) (
              All-rev_append IsFired o.gone w.state.fired_list (outcome-IsFired fs heap)
                v.fired_valid);
          handed_valid = v.handed_valid;
        };
        conserved = λ x. omega (
          arith,
          ap (pending x) r.rebuilt,
          pending-set x w.state.tables priority (table_at state' priority) h,
          ap (weigh (is_at x)) r.fire,
          weigh-rev_append (is_at x) o.gone w.state.fired_list,
          r.stay (is_at x),
          outcome-weigh x fs heap,
          weigh-concat (is_at x) table.buckets,
        );
      }
