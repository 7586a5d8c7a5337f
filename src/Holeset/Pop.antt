-- ===== src/Holeset/Pop.antt =====
-- Taking a hole of at least the size asked for, and giving back its tail.
use whippet.Base.{
  ℕ, ◌+◌, ◌-◌, ◌*◌, ◌≤◌, ◌<◌, ◌≡◌, refl, sym, ◌∙◌, ap, List, [], ◌∷◌, Option, none, some, Bool,
  true, false, not, arith, get_or, set, drop, length, length-set, set-get_or, All, leb, ltb, ◌>>=◌,
  ◌>>◌, assert, Bool-cases, inl, inr, subst, lt→ltb, ltb→lt, le→leb, if◌then◌else◌,
}
use whippet.Holeset.{
  Hole, Holeset, hole_push, push_local, hole_for_insert, hole_pop, take_hole, try_pop,
  hole_granules, hole_tail_address, is_null, granule_size, max_granules, packed_granules,
}
use whippet.Holeset.Buckets.{
  Fits, IsValid, BucketsValid-get, BucketsValid-set, BucketsValid-length, sparse_bucket-sparse_idx,
  lookup_idx, bucket_for_lookup-lookup_idx, lookup_idx-le, sparse_idx, FirstBit, first, no_bit,
  ctz-FirstBit, get_or-drop, lt-length-drop,
}
use whippet.Holeset.Covers.{holds, covers, bucket_covers, covers_from-set, holds-split}

pub record Adds (s : Holeset) (addr granules : ℕ) (s' : Holeset) : Type 0 where
  pub valid : IsValid s'
  pub covered : (x : ℕ) → covers x s' ≡ covers x s + holds x addr granules

hole_push-Adds :
    (s : Holeset) (idx : ℕ) (hole : Hole)
    → IsValid s
    → idx < 64
    → Fits idx hole
    → Adds s hole.addr (hole_granules idx hole) (hole_push s idx hole)
hole_push-Adds s idx hole v h fits =
    let b = get_or s.buckets idx [] in
    let (e, others) =
      BucketsValid-get 0 idx s.nonempty s.buckets v.buckets_valid (omega (arith, v.bucket_count)) in
    let at_idx : ◌≡◌ {A = ℕ} (0 + idx) idx = omega arith in
    record {
      valid = record {
        bucket_count = length-set s.buckets idx (hole ∷ b) ∙ v.bucket_count;
        buckets_valid =
            BucketsValid-set 0 idx s.nonempty s.buckets (hole ∷ b) v.buckets_valid
              (subst (λ j. Fits j hole) (sym at_idx) fits, others);
      };
      covered = λ x.
          let c = covers_from-set x 0 idx s.buckets (hole ∷ b) (omega (arith, v.bucket_count)) in
          let d =
            subst
              (λ j.
                bucket_covers x j (hole ∷ b)
                ≡ holds x hole.addr (hole_granules idx hole) + bucket_covers x j b)
              (sym at_idx) refl in
          omega (arith, c, d);
    }

pub data Pushes (s : Holeset) (addr granules : ℕ) : Option Holeset → Type 0 where
  pushed : (s' : Holeset) → Adds s addr granules s' → Pushes s addr granules (some s')

-- A hole that is not empty is put into a valid set with no assertion failed; the set stays valid and
-- covers exactly the hole's granules besides.
pub push_local-Pushes :
    (s : Holeset) (addr granules : ℕ)
    → IsValid s
    → 0 < granules
    → Pushes s addr granules (push_local s addr granules)
unfolding push_local hole_for_insert
push_local-Pushes s addr granules v h = elim (Bool-cases (leb granules packed_granules)) [
  | inl e ↦
      rw (e, lt→ltb _ _ h)
        (Pushes.pushed _ (
          subst
            (λ g. Adds s addr g (hole_push s (granules - 1) record { addr = addr; granules = 0 }))
            (ground arith)
            (hole_push-Adds s (granules - 1) record { addr = addr; granules = 0 } v (ground arith)
              (ground arith))))
  | inr e ↦
      let idx = sparse_idx granules true in
      rw (e, sparse_bucket-sparse_idx granules true (ground arith))
        (Pushes.pushed _ (
          subst (λ g. Adds s addr g (hole_push s idx record { addr = addr; granules = granules }))
            (ground arith)
            (hole_push-Adds s idx record { addr = addr; granules = granules } v (ground arith)
              (λ h. (ground arith, refl)))))
]

-- Taking the first hole of a bucket.
data PopsHole (s : Holeset) (idx : ℕ) : Option (Hole × Holeset) → Type 0 where
  popped :
      (hole : Hole) (s' : Holeset)
      → IsValid s'
      → Fits idx hole
      → ((x : ℕ) → covers x s' + holds x hole.addr (hole_granules idx hole) ≡ covers x s)
      → PopsHole s idx (some (hole, s'))

-- The mask after the pop is the one with the bit that tells of what is left.
mask_after_pop :
    (ms : List Bool) (idx : ℕ) (next : List Hole)
    → get_or ms idx false ≡ true
    → (if is_null next then set ms idx false else ms) ≡ set ms idx (not (is_null next))
mask_after_pop ms idx [] e = refl
mask_after_pop ms idx (h ∷ next) e = sym (set-get_or ms idx false) ∙ ap (set ms idx) e

hole_pop-cases :
    (s : Holeset) (idx : ℕ) (b : List Hole)
    → get_or s.buckets idx [] ≡ b
    → IsValid s
    → idx < 64
    → get_or s.nonempty idx false ≡ true
    → PopsHole s idx (hole_pop s idx)
unfolding hole_pop
hole_pop-cases s idx [] e v h bit =
    let (m, f) =
      BucketsValid-get 0 idx s.nonempty s.buckets v.buckets_valid (omega (arith, v.bucket_count)) in
    cc (m, bit, e)
hole_pop-cases s idx (hole ∷ next) e v h bit =
    let in_range : idx < length s.buckets = omega (arith, v.bucket_count) in
    let (m, f) = BucketsValid-get 0 idx s.nonempty s.buckets v.buckets_valid in_range in
    let (fits, others) = subst (All (Fits (0 + idx))) e f in
    let at_idx : ◌≡◌ {A = ℕ} (0 + idx) idx = omega arith in
    rw (hole_pop, e, bit, mask_after_pop s.nonempty idx next bit)
      (PopsHole.popped hole _
        record {
          bucket_count = length-set s.buckets idx next ∙ v.bucket_count;
          buckets_valid = BucketsValid-set 0 idx s.nonempty s.buckets next v.buckets_valid others;
        }
        (subst (λ j. Fits j hole) at_idx fits)
        (λ x.
          let c = covers_from-set x 0 idx s.buckets next in_range in
          let d =
            subst
              (λ (t : List Hole).
                bucket_covers x (0 + idx) t ≡ bucket_covers x (0 + idx) (get_or s.buckets idx []))
              e refl in
          let z =
            subst
              (λ j.
                bucket_covers x j (hole ∷ next)
                ≡ holds x hole.addr (hole_granules idx hole) + bucket_covers x j next)
              (sym at_idx) refl in
          omega (arith, c, d, z)))

-- What an allocation of `granules` from the set did: it took them from the front of a hole and kept
-- the hole's tail, or no bucket from the one where the lookup starts holds a hole.
pub data Pops (s : Holeset) (granules : ℕ) : Option (Option ℕ × Holeset) → Type 0 where
  found :
      (addr : ℕ) (s' : Holeset)
      → IsValid s'
      → ((x : ℕ) → covers x s' + holds x addr granules ≡ covers x s)
      → Pops s granules (some (some addr, s'))
  not_found :
      ((k : ℕ) → lookup_idx granules ≤ k → get_or s.nonempty k false ≡ false)
      → Pops s granules (some (none, s))

keep_tail :
    (s left : Holeset) (addr granules size : ℕ) (out : Option Holeset)
    → granules ≤ size
    → ((x : ℕ) → covers x left + holds x addr size ≡ covers x s)
    → Pushes left (hole_tail_address addr granules) (size - granules) out
    → Pops s granules (out >>= λ t. some (some addr, t))
keep_tail s left addr granules size out h c (pushed s' a) = Pops.found addr s' a.valid (λ x.
    let whole : granules + (size - granules) ≡ size = omega arith in
    let split =
      subst
        (λ n.
          holds x addr n
          ≡ holds x addr granules + holds x (addr + granules * granule_size) (size - granules))
        whole (holds-split x addr granules (size - granules)) in
    omega (arith, c x, a.covered x, split))

take_hole-Pops :
    (s : Holeset) (idx granules : ℕ) (out : Option (Hole × Holeset))
    → granules ≤ max_granules
    → 0 < granules
    → lookup_idx granules ≤ idx
    → PopsHole s idx out
    → Pops s granules (
        out >>= λ r.
        assert (ltb 0 (hole_granules idx r.0))
        >> (assert (leb granules (hole_granules idx r.0))
            >> elim (ltb 0 (hole_granules idx r.0 - granules)) [
              | true ↦
                  push_local r.1
                    (hole_tail_address r.0.addr granules)
                    (hole_granules idx r.0 - granules)
                  >>= λ t. some (some r.0.addr, t)
              | false ↦ some (some r.0.addr, r.1)
            ]))
take_hole-Pops s idx granules out h1 h2 h3 (popped hole left v fits c) =
    let (enough, more) = lookup_idx-le granules idx hole h1 h2 h3 fits in
    elim (Bool-cases (ltb 0 (hole_granules idx hole - granules))) [
      | inl e ↦
          rw (lt→ltb _ _ more, le→leb _ _ enough, e)
            (keep_tail s left hole.addr granules (hole_granules idx hole) _ enough c
              (push_local-Pushes left _ _ v (ltb→lt _ _ e)))
      | inr e ↦
          rw (lt→ltb _ _ more, le→leb _ _ enough, e)
            (Pops.found hole.addr left v (λ x.
              subst (λ n. covers x left + holds x hole.addr n ≡ covers x s) (ground arith) (c x)))
    ]

try_pop-at :
    (s : Holeset) (granules : ℕ) (found_bit : Option ℕ)
    → FirstBit (drop (lookup_idx granules) s.nonempty) found_bit
    → IsValid s
    → granules ≤ max_granules
    → 0 < granules
    → Pops s granules (elim found_bit [
      | none ↦ some (none, s)
      | some k ↦ take_hole s (lookup_idx granules + k) granules
    ])
unfolding take_hole
try_pop-at s granules found_bit (first k e h) v h1 h2 =
    let idx = lookup_idx granules + k in
    let below = lt-length-drop (lookup_idx granules) k s.nonempty h in
    let len = BucketsValid-length 0 s.nonempty s.buckets v.buckets_valid in
    take_hole-Pops s idx granules (hole_pop s idx) h1 h2 (omega arith) (
      hole_pop-cases s idx _ refl v (omega (arith, below, len, v.bucket_count))
        (sym (get_or-drop (lookup_idx granules) k s.nonempty) ∙ e))
try_pop-at s granules found_bit (no_bit none_set) v h1 h2 = Pops.not_found (λ k h.
    subst (λ j. get_or s.nonempty j false ≡ false) (omega arith)
      (sym (get_or-drop (lookup_idx granules) (k - lookup_idx granules) s.nonempty)
        ∙ none_set (k - lookup_idx granules)))

-- Allocating at most 512 granules, and at least one, from a valid set passes the assertions on
-- sizes, on buckets and on the mask. It takes exactly the granules asked for out of those that the set covers and leaves the set valid, or
-- it refuses, and then no bucket from the one where the lookup starts has its bit set.
pub try_pop-Pops :
    (s : Holeset) (granules : ℕ)
    → IsValid s
    → granules ≤ max_granules
    → 0 < granules
    → Pops s granules (try_pop s granules)
unfolding try_pop
try_pop-Pops s granules v h1 h2 =
    rw (le→leb _ _ h1, bucket_for_lookup-lookup_idx granules h2)
      (try_pop-at s granules _ (ctz-FirstBit (drop (lookup_idx granules) s.nonempty)) v h1 h2)
