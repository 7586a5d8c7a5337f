-- ===== src/Finalizer/Tables.antt =====
-- What a table of finalizers holds: any weight of finalizers, summed over its buckets, tells it.
use whippet.Base.{
  ℕ, zero, suc, ◌+◌, ◌%◌, ◌<◌, ◌≡◌, refl, ◌∙◌, List, [], ◌∷◌, arith, get_or, set, length,
  length-set, All, All-set, All-get_or,
}
use whippet.Base.Word.{word_mod}
use whippet.Finalizer.{
  active, Finalizer, Table, bucket_count, empty_table, add_finalizer_to_table, list_push,
}

abbrev pub weigh : (Finalizer → ℕ) → List Finalizer → ℕ
weigh w [] = 0
weigh w (f ∷ fs) = w f + weigh w fs

abbrev pub weigh_buckets : (Finalizer → ℕ) → List (List Finalizer) → ℕ
weigh_buckets w [] = 0
weigh_buckets w (b ∷ bs) = weigh w b + weigh_buckets w bs

abbrev pub weigh_table : (Finalizer → ℕ) → Table → ℕ
weigh_table w t = weigh_buckets w t.buckets

abbrev pub one : Finalizer → ℕ
one f = 1

-- How many finalizers a table holds.
abbrev pub total : Table → ℕ
total t = weigh_table one t

abbrev pub IsActive : Finalizer → Type 0
IsActive f = f.state ≡ active

pub record TableIsValid (t : Table) : Type 0 where
  pub has_buckets : length t.buckets ≡ bucket_count
  pub counts : t.finalizer_count ≡ total t
  pub all_active : All (All IsActive) t.buckets

pub empty_table-IsValid : TableIsValid empty_table
empty_table-IsValid = record { has_buckets = refl; counts = refl; all_active = ground arith }

weigh_buckets-set :
    (w : Finalizer → ℕ) (bs : List (List Finalizer)) (i : ℕ) (b : List Finalizer)
    → i < length bs
    → weigh_buckets w (set bs i b) + weigh w (get_or bs i []) ≡ weigh_buckets w bs + weigh w b
weigh_buckets-set w [] i b h = absurd (omega arith)
weigh_buckets-set w (c ∷ bs) zero b h = omega arith
weigh_buckets-set w (c ∷ bs) (suc i) b h = omega (arith, weigh_buckets-set w bs i b (omega arith))

pub add_finalizer_to_table-weigh :
    (w : Finalizer → ℕ) (t : Table) (f : Finalizer)
    → TableIsValid t
    → weigh_table w (add_finalizer_to_table t f) ≡ weigh_table w t + w f
unfolding add_finalizer_to_table list_push
add_finalizer_to_table-weigh w t f v =
    let idx = t.finalizer_count % bucket_count in
    omega (
      arith,
      weigh_buckets-set w t.buckets idx (f ∷ get_or t.buckets idx [])
          (omega (arith, v.has_buckets)),
    )

pub add_finalizer_to_table-IsValid :
    (t : Table) (f : Finalizer)
    → TableIsValid t
    → IsActive f
    → total t + 1 < word_mod
    → TableIsValid (add_finalizer_to_table t f)
unfolding add_finalizer_to_table list_push
add_finalizer_to_table-IsValid t f v a h =
    let idx = t.finalizer_count % bucket_count in
    let b = get_or t.buckets idx [] in
    let sum = add_finalizer_to_table-weigh one t f v in
    record {
      has_buckets = length-set t.buckets idx (f ∷ b) ∙ v.has_buckets;
      counts = omega (arith, v.counts, sum);
      all_active = All-set (All IsActive) t.buckets idx (f ∷ b) v.all_active (
        a,
        All-get_or (All IsActive) t.buckets idx [] v.all_active (omega (arith, v.has_buckets)),
      );
    }
