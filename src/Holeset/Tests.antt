-- ===== src/Holeset/Tests.antt =====
-- Runs of holesets, and their theorems at concrete sets.
use whippet.Base.{
  ℕ, ◌+◌, ◌++◌, ◌≡◌, refl, [], ◌∷◌, none, some, true, false, arith, replicate, get_or,
}
use whippet.Holeset.{
  Holeset, SharedHoleset, try_pop, push_local, release, take_hole, hole_pop, flip_bit,
  sparse_bucket, bucket_for_lookup, hole_for_insert, ctz,
}
use whippet.Holeset.Buckets.{IsValid}
use whippet.Holeset.Covers.{covers}
use whippet.Holeset.Pop.{Pops, try_pop-Pops}
use whippet.Holeset.Share.{SharedIsValid, shared_covers, release-covers}

-- Holes of 2 and of 60 granules.
abbrev some_holes : Holeset
some_holes = record {
  nonempty = false ∷ true ∷ (replicate 48 false ++ true ∷ replicate 13 false);
  buckets =
      []
      ∷ (record { addr = 4096; granules = 0 } ∷ [])
      ∷ (replicate 48 [] ++ (record { addr = 8192; granules = 60 } ∷ []) ∷ replicate 13 []);
}

some_holes-IsValid : IsValid some_holes
some_holes-IsValid = record { bucket_count = omega arith; buckets_valid = ground arith }

no_shared-IsValid :
    SharedIsValid (record { nonempty = replicate 64 false; buckets = replicate 64 [] })
no_shared-IsValid = record { bucket_count = refl; chains_valid = ground arith }

-- 3 granules come from the hole of 60, and its tail of 57 goes back.
pops_large : elim (try_pop some_holes 3) [ none ↦ none | some r ↦ r.0 ] ≡ some 8192
unfolding try_pop take_hole hole_pop flip_bit push_local hole_for_insert sparse_bucket
    bucket_for_lookup ctz
pops_large = refl

try_pop-Pops_example : Pops some_holes 3 (try_pop some_holes 3)
try_pop-Pops_example = try_pop-Pops some_holes 3 some_holes-IsValid (omega arith) (omega arith)

abbrev no_shared : SharedHoleset
no_shared = record { nonempty = replicate 64 false; buckets = replicate 64 [] }

release-covers_example :
    let (local', remote') = release some_holes no_shared in
    IsValid local'
    × SharedIsValid remote'
    × ((k : ℕ) → get_or local'.nonempty k false ≡ false)
    × ((x : ℕ)
        → covers x local' + shared_covers x remote'
          ≡ covers x some_holes + shared_covers x no_shared)
release-covers_example = release-covers some_holes no_shared some_holes-IsValid no_shared-IsValid
