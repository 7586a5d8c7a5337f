-- ===== src/Holeset/Share.antt =====
-- Holes go to a set shared by all threads and come back from it, a bucket at a time.
use whippet.Base.{
  ℕ, suc, ◌+◌, ◌≡◌, refl, sym, ◌∙◌, ap, List, [], ◌∷◌, Option, none, some, Bool, true, false, not,
  arith, get_or, length, All, subst, replicate, get_or-replicate,
}
use whippet.Holeset.{Hole, Holeset, SharedHoleset, is_null, release, release_buckets, or_bits, ctz}
use whippet.Holeset.Buckets.{Fits, IsValid, BucketsValid, FirstBit, first, no_bit, ctz-FirstBit}
use whippet.Holeset.Covers.{covers, bucket_covers, covers_from}

-- A list of holes that stands in a chain of the bucket.
abbrev pub IsChained : ℕ → List Hole → Type 0
IsChained idx b = (is_null b ≡ false) × All (Fits idx) b

abbrev pub ChainsValid : ℕ → List Bool → List (List (List Hole)) → Type 0
ChainsValid i [] [] = Unit
ChainsValid i [] (c ∷ cs) = ⊥
ChainsValid i (m ∷ ms) [] = ⊥
ChainsValid i (m ∷ ms) (c ∷ cs) =
    (m ≡ not (is_null c)) × All (IsChained i) c × ChainsValid (suc i) ms cs

pub record SharedIsValid (s : SharedHoleset) : Type 0 where
  pub bucket_count : length s.buckets ≡ 64
  pub chains_valid : ChainsValid 0 s.nonempty s.buckets

abbrev pub chain_covers : ℕ → ℕ → List (List Hole) → ℕ
chain_covers x idx [] = 0
chain_covers x idx (b ∷ bs) = bucket_covers x idx b + chain_covers x idx bs

abbrev pub shared_covers_from : ℕ → ℕ → List (List (List Hole)) → ℕ
shared_covers_from x idx [] = 0
shared_covers_from x idx (c ∷ cs) = chain_covers x idx c + shared_covers_from x (suc idx) cs

abbrev pub shared_covers : ℕ → SharedHoleset → ℕ
shared_covers x s = shared_covers_from x 0 s.buckets

-- What moving the buckets did, from bucket `i` on.
record Moves (i : ℕ) (ms ns : List Bool) (bs l : List (List Hole)) (cs r : List (List (List Hole)))
    : Type 0 where
  emptied : BucketsValid i (replicate (length bs) false) l
  chained : ChainsValid i (or_bits ns ms) r
  lengths : (length l ≡ length bs) × (length r ≡ length cs)
  conserved :
      (x : ℕ)
      → covers_from x i l + shared_covers_from x i r
        ≡ covers_from x i bs + shared_covers_from x i cs

release_buckets-Moves :
    (i : ℕ) (ms ns : List Bool) (bs : List (List Hole)) (cs : List (List (List Hole)))
    → length bs ≡ length cs
    → BucketsValid i ms bs
    → ChainsValid i ns cs
    → let (l, r) = release_buckets ms bs cs in Moves i ms ns bs l cs r
unfolding release_buckets
release_buckets-Moves i [] [] [] [] h v w = record {
  emptied = tt;
  chained = tt;
  lengths = (refl, refl);
  conserved = λ x. refl;
}
release_buckets-Moves i [] (n ∷ ns) [] [] h v w = absurd w
release_buckets-Moves i [] ns (b ∷ bs) cs h v w = absurd v
release_buckets-Moves i [] ns [] (c ∷ cs) h v w = absurd (omega arith)
release_buckets-Moves i (m ∷ ms) ns [] cs h v w = absurd v
release_buckets-Moves i (m ∷ ms) ns (b ∷ bs) [] h v w = absurd (omega arith)
release_buckets-Moves i (m ∷ ms) [] (b ∷ bs) (c ∷ cs) h v w = absurd w
release_buckets-Moves i (true ∷ ms) (n ∷ ns) ([] ∷ bs) (c ∷ cs) h v w = cc (v.0)
release_buckets-Moves i (true ∷ ms) (n ∷ ns) ((hole ∷ b) ∷ bs) (c ∷ cs) h v w =
    let ih = release_buckets-Moves (suc i) ms ns bs cs (omega arith) v.2 w.2 in
    record {
      emptied = (refl, tt, ih.emptied);
      chained = (ground arith, ((refl, v.1), w.1), ih.chained);
      lengths = (ap suc ih.lengths.0, ap suc ih.lengths.1);
      conserved = λ x. omega (arith, ih.conserved x);
    }
release_buckets-Moves i (false ∷ ms) (n ∷ ns) ((hole ∷ b) ∷ bs) (c ∷ cs) h v w = cc (v.0)
release_buckets-Moves i (false ∷ ms) (n ∷ ns) ([] ∷ bs) (c ∷ cs) h v w =
    let ih = release_buckets-Moves (suc i) ms ns bs cs (omega arith) v.2 w.2 in
    record {
      emptied = (refl, tt, ih.emptied);
      chained = (ground (arith, w.0), w.1, ih.chained);
      lengths = (ap suc ih.lengths.0, ap suc ih.lengths.1);
      conserved = λ x. omega (arith, ih.conserved x);
    }

release-at :
    (local : Holeset) (remote : SharedHoleset) (bit : Option ℕ)
    → FirstBit local.nonempty bit
    → IsValid local
    → SharedIsValid remote
    → let (local', remote') = elim bit as (λ b. Holeset × SharedHoleset) [
      | none ↦ (local, remote)
      | some _ ↦
          let (l, r) = release_buckets local.nonempty local.buckets remote.buckets in
          (
            record { nonempty = replicate 64 false; buckets = l },
            record { nonempty = or_bits remote.nonempty local.nonempty; buckets = r },
          )
    ] in
      IsValid local'
      × SharedIsValid remote'
      × ((k : ℕ) → get_or local'.nonempty k false ≡ false)
      × ((x : ℕ)
          → covers x local' + shared_covers x remote' ≡ covers x local + shared_covers x remote)
release-at local remote bit (no_bit none_set) v w = (v, w, none_set, λ x. refl)
release-at local remote bit (first k e h) v w =
    let moves =
      release_buckets-Moves 0 local.nonempty remote.nonempty local.buckets remote.buckets
        (v.bucket_count ∙ sym w.bucket_count) v.buckets_valid w.chains_valid in
    (
      record {
        bucket_count = moves.lengths.0 ∙ v.bucket_count;
        buckets_valid =
            subst
              (λ n.
                BucketsValid 0 (replicate n false)
                  (release_buckets local.nonempty local.buckets remote.buckets).0)
              v.bucket_count moves.emptied;
      },
      record { bucket_count = moves.lengths.1 ∙ w.bucket_count; chains_valid = moves.chained },
      λ k. get_or-replicate 64 k false,
      moves.conserved,
    )

-- Giving a valid local set to a valid shared one keeps both valid, leaves the local set with no hole,
-- and moves every granule it covers.
pub release-covers :
    (local : Holeset) (remote : SharedHoleset)
    → IsValid local
    → SharedIsValid remote
    → let (local', remote') = release local remote in
      IsValid local'
      × SharedIsValid remote'
      × ((k : ℕ) → get_or local'.nonempty k false ≡ false)
      × ((x : ℕ)
          → covers x local' + shared_covers x remote' ≡ covers x local + shared_covers x remote)
unfolding release
release-covers local remote v w =
    release-at local remote (ctz local.nonempty) (ctz-FirstBit local.nonempty) v w
