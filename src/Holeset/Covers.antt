-- ===== src/Holeset/Covers.antt =====
-- How many holes of a set cover a granule of the space.
use whippet.Base.{
  ℕ, zero, suc, ◌+◌, ◌*◌, ◌<◌, ◌≡◌, List, [], ◌∷◌, arith, get_or, set, length, tick, leb, ltb, ◌&&◌,
  subst,
}
use whippet.Holeset.{Hole, Holeset, hole_granules, granule_size}

-- Whether the `size` granules from `addr` on hold the byte `x`.
abbrev pub holds : ℕ → ℕ → ℕ → ℕ
holds x addr size = tick (leb addr x && ltb x (addr + size * granule_size))

abbrev pub bucket_covers : ℕ → ℕ → List Hole → ℕ
bucket_covers x idx [] = 0
bucket_covers x idx (hole ∷ holes) =
    holds x hole.addr (hole_granules idx hole) + bucket_covers x idx holes

abbrev pub covers_from : ℕ → ℕ → List (List Hole) → ℕ
covers_from x idx [] = 0
covers_from x idx (b ∷ bs) = bucket_covers x idx b + covers_from x (suc idx) bs

abbrev pub covers : ℕ → Holeset → ℕ
covers x s = covers_from x 0 s.buckets

pub covers_from-set :
    (x i k : ℕ) (bs : List (List Hole)) (b' : List Hole)
    → k < length bs
    → covers_from x i (set bs k b') + bucket_covers x (i + k) (get_or bs k [])
      ≡ covers_from x i bs + bucket_covers x (i + k) b'
covers_from-set x i k [] b' h = absurd (omega arith)
covers_from-set x i zero (b ∷ bs) b' h =
    subst
      (λ j.
        bucket_covers x i b' + covers_from x (suc i) bs + bucket_covers x j b
        ≡ bucket_covers x i b + covers_from x (suc i) bs + bucket_covers x j b')
      (add_zero i) (omega arith)
  where
    add_zero : (i : ℕ) → i ≡ i + 0
    add_zero i = omega arith
covers_from-set x i (suc k) (b ∷ bs) b' h =
    let ih = covers_from-set x (suc i) k bs b' (omega arith) in
    subst
      (λ j.
        bucket_covers x i b
          + covers_from x (suc i) (set bs k b')
          + bucket_covers x j (get_or bs k [])
        ≡ bucket_covers x i b + covers_from x (suc i) bs + bucket_covers x j b')
      (shift i k) (omega (arith, ih))
  where
    shift : (i k : ℕ) → suc i + k ≡ i + suc k
    shift i k = omega arith

-- A hole in two parts.
pub holds-split :
    (x addr a b : ℕ) → holds x addr (a + b) ≡ holds x addr a + holds x (addr + a * granule_size) b
holds-split x addr a b = ground arith
