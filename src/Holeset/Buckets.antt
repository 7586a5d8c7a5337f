-- ===== src/Holeset/Buckets.antt =====
-- Which bucket a hole goes to and where a lookup starts, and the buckets' invariant.
use whippet.Base.{
  ℕ, zero, suc, ◌+◌, ◌-◌, ◌*◌, ◌≤◌, ◌<◌, ◌≡◌, refl, List, [], ◌∷◌, Option, none, some, Bool, true,
  false, not, arith, get_or, set, drop, length, All, leb, ltb, Bool-cases, inl, inr, lt→ltb, le→leb,
  ap, ◌>>=◌, ◌∙◌, subst, if◌then◌else◌,
}
use whippet.Holeset.{
  Hole, Holeset, sparse_bucket, bucket_for_lookup, hole_granules, is_null, packed_granules,
  sparse_count, max_granules, min, round_down, round_up, ctz,
}

abbrev pub sparse_idx : ℕ → Bool → ℕ
sparse_idx granules true =
    50 + min (round_down ((granules - 50) * sparse_count) (max_granules - 50)) sparse_count
sparse_idx granules false =
    50 + min (round_up ((granules - 50) * sparse_count) (max_granules - 50)) sparse_count

pub sparse_bucket-sparse_idx :
    (granules : ℕ) (for_insert : Bool)
    → packed_granules ≤ granules
    → sparse_bucket granules for_insert ≡ some (sparse_idx granules for_insert)
unfolding sparse_bucket
sparse_bucket-sparse_idx granules true h =
    rw (le→leb _ _ h, lt→ltb (sparse_idx granules true) 64 (ground arith)) refl
sparse_bucket-sparse_idx granules false h =
    rw (le→leb _ _ h, lt→ltb (sparse_idx granules false) 64 (ground arith)) refl

-- The hole has the size class of the bucket.
abbrev pub Fits : ℕ → Hole → Type 0
Fits idx hole =
    packed_granules ≤ idx
    → (packed_granules < hole.granules) × (sparse_idx hole.granules true ≡ idx)

abbrev pub BucketsValid : ℕ → List Bool → List (List Hole) → Type 0
BucketsValid i [] [] = Unit
BucketsValid i [] (b ∷ bs) = ⊥
BucketsValid i (m ∷ ms) [] = ⊥
BucketsValid i (m ∷ ms) (b ∷ bs) =
    (m ≡ not (is_null b)) × All (Fits i) b × BucketsValid (suc i) ms bs

pub record IsValid (s : Holeset) : Type 0 where
  pub bucket_count : length s.buckets ≡ 64
  pub buckets_valid : BucketsValid 0 s.nonempty s.buckets

abbrev pub lookup_idx : ℕ → ℕ
lookup_idx granules =
    if leb granules packed_granules then granules - 1 else sparse_idx granules false

pub bucket_for_lookup-lookup_idx :
    (granules : ℕ) → 0 < granules → bucket_for_lookup granules ≡ some (lookup_idx granules)
unfolding bucket_for_lookup
bucket_for_lookup-lookup_idx granules h = elim (Bool-cases (leb granules packed_granules)) [
  | inl e ↦ rw e (ap some (ground arith))
  | inr e ↦ rw e (sparse_bucket-sparse_idx granules false (ground arith))
]

-- A hole at or behind the bucket where a lookup starts is large enough.
pub lookup_idx-le :
    (granules idx : ℕ) (hole : Hole)
    → granules ≤ max_granules
    → 0 < granules
    → lookup_idx granules ≤ idx
    → Fits idx hole
    → (granules ≤ hole_granules idx hole) × (0 < hole_granules idx hole)
lookup_idx-le granules idx hole h1 h2 h3 fits = elim (Bool-cases (ltb idx packed_granules)) [
  | inl e ↦ ground arith
  | inr e ↦ let (big, at) = fits (ground arith) in ground arith
]

-- What the mask and the invariant tell of one bucket.
pub BucketsValid-get :
    (i k : ℕ) (ms : List Bool) (bs : List (List Hole))
    → BucketsValid i ms bs
    → k < length bs
    → (get_or ms k false ≡ not (is_null (get_or bs k []))) × All (Fits (i + k)) (get_or bs k [])
BucketsValid-get i k [] [] v h = absurd (omega arith)
BucketsValid-get i k [] (b ∷ bs) v h = absurd v
BucketsValid-get i k (m ∷ ms) [] v h = absurd v
BucketsValid-get i zero (m ∷ ms) (b ∷ bs) (e, fits, v) h =
    (e, subst (λ j. All (Fits j) b) (omega arith) fits)
BucketsValid-get i (suc k) (m ∷ ms) (b ∷ bs) (e, fits, v) h =
    let (e', fits') = BucketsValid-get (suc i) k ms bs v (omega arith) in
    (e', subst (λ j. All (Fits j) (get_or bs k [])) (omega arith) fits')

-- Changing one bucket and its bit.
pub BucketsValid-set :
    (i k : ℕ) (ms : List Bool) (bs : List (List Hole)) (b' : List Hole)
    → BucketsValid i ms bs
    → All (Fits (i + k)) b'
    → BucketsValid i (set ms k (not (is_null b'))) (set bs k b')
BucketsValid-set i k [] [] b' v fits = tt
BucketsValid-set i k [] (b ∷ bs) b' v fits = absurd v
BucketsValid-set i k (m ∷ ms) [] b' v fits = absurd v
BucketsValid-set i zero (m ∷ ms) (b ∷ bs) b' (e, f, v) fits =
    (refl, subst (λ j. All (Fits j) b') (omega arith) fits, v)
BucketsValid-set i (suc k) (m ∷ ms) (b ∷ bs) b' (e, f, v) fits =
    (e, f, BucketsValid-set (suc i) k ms bs b' v (subst (λ j. All (Fits j) b') (omega arith) fits))

-- What counting the low zeroes of a mask tells.
pub data FirstBit (ms : List Bool) : Option ℕ → Type 0 where
  first : (k : ℕ) → get_or ms k false ≡ true → k < length ms → FirstBit ms (some k)
  no_bit : ((k : ℕ) → get_or ms k false ≡ false) → FirstBit ms none

FirstBit-shift :
    (ms : List Bool) (out : Option ℕ)
    → FirstBit ms out
    → FirstBit (false ∷ ms) (out >>= λ i. some (suc i))
FirstBit-shift ms out (first k e h) = FirstBit.first (suc k) e (omega arith)
FirstBit-shift ms out (no_bit none_set) =
    FirstBit.no_bit (λ k. elim k as (λ k. get_or (false ∷ ms) k false ≡ false) [
      | zero ↦ refl
      | suc j ↦ none_set j
    ])

pub ctz-FirstBit : (ms : List Bool) → FirstBit ms (ctz ms)
unfolding ctz
ctz-FirstBit [] = FirstBit.no_bit (λ k. refl)
ctz-FirstBit (true ∷ ms) = FirstBit.first 0 refl (omega arith)
ctz-FirstBit (false ∷ ms) = FirstBit-shift ms (ctz ms) (ctz-FirstBit ms)

pub get_or-drop : (n k : ℕ) (ms : List Bool) → get_or (drop n ms) k false ≡ get_or ms (n + k) false
get_or-drop zero k ms = ap (λ j. get_or ms j false) (omega arith)
get_or-drop (suc n) k [] = refl
get_or-drop (suc n) k (m ∷ ms) =
    get_or-drop n k ms ∙ ap (λ j. get_or (m ∷ ms) j false) (suc_shift n k)
  where
    suc_shift : (n k : ℕ) → suc (n + k) ≡ suc n + k
    suc_shift n k = omega arith

pub lt-length-drop : (n k : ℕ) (ms : List Bool) → k < length (drop n ms) → n + k < length ms
lt-length-drop zero k ms h = omega arith
lt-length-drop (suc n) k [] h = absurd (omega arith)
lt-length-drop (suc n) k (m ∷ ms) h = omega (arith, lt-length-drop n k ms h)

pub BucketsValid-length :
    (i : ℕ) (ms : List Bool) (bs : List (List Hole)) → BucketsValid i ms bs → length ms ≡ length bs
BucketsValid-length i [] [] v = refl
BucketsValid-length i [] (b ∷ bs) v = absurd v
BucketsValid-length i (m ∷ ms) [] v = absurd v
BucketsValid-length i (m ∷ ms) (b ∷ bs) (e, f, v) = ap suc (BucketsValid-length (suc i) ms bs v)
