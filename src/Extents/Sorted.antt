-- ===== src/Extents/Sorted.antt =====
-- `extents_adjoin`, `extents_insert` and `extents_append` keep the ranges sorted, and what they cover.
use native.Mathlib.Nat.{le_trans}
use whippet.Base.{
  ℕ, suc, ◌+◌, ◌-◌, ◌≤◌, ◌<◌, true, lt→ltb, length-append, ◌≡◌, refl, ◌⊎◌, ◌↔◌, List, [], ◌∷◌, ◌++◌,
  some, ltb, ◌==◌, if◌then◌else◌, subst, ◌∙◌, arith, All, All-imp, All-append, take, drop, ◌^◌,
}
use whippet.Extents.{
  ExtentRange, Extents, Adjoined, grown, place, pass, settle, adjoin_loop, adjoin, insert, append,
  make_range, IsSorted, InRange, Covers, last_hi, follows, size,
}

-- The ranges after `extents_adjoin`, in one pass over the list.
adjoined : ExtentRange → List ExtentRange → List ExtentRange
adjoined g [] = g ∷ []
adjoined g (r ∷ rs) =
    if ltb g.hi_addr r.lo_addr
    then g ∷ r ∷ rs
    else if g.hi_addr == r.lo_addr
    then record r { lo_addr = g.lo_addr } ∷ rs
    else if g.lo_addr == r.hi_addr
    then record r { hi_addr = g.hi_addr } ∷ rs
    else r ∷ adjoined g rs

finish : ExtentRange → List ExtentRange → ℕ → Adjoined → List ExtentRange
finish g rs i (grown out) = out
finish g rs i (place k) = take (k - i) rs ++ g ∷ drop (k - i) rs

IsFrom : ℕ → Adjoined → Type 0
IsFrom i (grown out) = Unit
IsFrom i (place k) = i ≤ k

adjoin_loop-IsFrom :
    (g : ExtentRange) (rs : List ExtentRange) (i : ℕ) → IsFrom i (adjoin_loop g rs i)
unfolding adjoin_loop IsFrom
adjoin_loop-IsFrom g [] i = omega arith
adjoin_loop-IsFrom g (r ∷ rs) i = ground (arith, adjoin_loop-IsFrom g rs (i + 1))

finish-pass :
    (g r : ExtentRange) (rs : List ExtentRange) (i : ℕ) (a : Adjoined)
    → IsFrom (i + 1) a
    → finish g (r ∷ rs) i (pass r a) ≡ r ∷ finish g rs (i + 1) a
unfolding finish IsFrom
finish-pass g r rs i (grown out) h = refl
finish-pass g r rs i (place k) h = let e : k - i ≡ suc (k - (i + 1)) = omega arith in rw e

finish-adjoin_loop :
    (g : ExtentRange) (rs : List ExtentRange) (i : ℕ)
    → finish g rs i (adjoin_loop g rs i) ≡ adjoined g rs
unfolding adjoin_loop adjoined finish
finish-adjoin_loop g [] i = let e : i - i ≡ 0 = omega arith in rw e
finish-adjoin_loop g (r ∷ rs) i =
    let e : i - i ≡ 0 = omega arith in
    let rest = finish-pass g r rs i (adjoin_loop g rs (i + 1)) (adjoin_loop-IsFrom g rs (i + 1)) in
    ground (arith, finish-adjoin_loop g rs (i + 1))

-- The new range overlaps none of the old ones.
abbrev pub IsApart : ExtentRange → List ExtentRange → Type 0
IsApart g rs = All (λ r. (g.hi_addr ≤ r.lo_addr) ⊎ (r.hi_addr ≤ g.lo_addr)) rs

All-adjoined :
    (b : ℕ) (g : ExtentRange) (rs : List ExtentRange)
    → b ≤ g.lo_addr
    → All (λ s. b ≤ s.lo_addr) rs
    → All (λ s. b ≤ s.lo_addr) (adjoined g rs)
unfolding adjoined
All-adjoined b g [] h a = (h, tt)
All-adjoined b g (r ∷ rs) h a = ground (arith, All-adjoined b g rs)

-- What starts behind the end of a range, and overlaps nothing, starts behind what extends it.
All-behind :
    (b : ℕ) (g : ExtentRange) (rs : List ExtentRange)
    → g.lo_addr ≤ b
    → g.lo_addr < g.hi_addr
    → IsApart g rs
    → IsSorted rs
    → All (λ s. b ≤ s.lo_addr) rs
    → All (λ s. g.hi_addr ≤ s.lo_addr) rs
All-behind b g [] h lt a s f = tt
All-behind b g (r ∷ rs) h lt a s f = ground (arith, All-behind b g rs)

All-raise :
    (b c : ℕ) (rs : List ExtentRange)
    → c ≤ b
    → All (λ s. b ≤ s.lo_addr) rs
    → All (λ s. c ≤ s.lo_addr) rs
All-raise b c rs h a = All-imp (λ s p. le_trans h p) rs a

adjoined-IsSorted :
    (g : ExtentRange) (rs : List ExtentRange)
    → g.lo_addr < g.hi_addr
    → IsApart g rs
    → IsSorted rs
    → IsSorted (adjoined g rs)
unfolding adjoined
adjoined-IsSorted g [] lt a s = (lt, tt, tt)
adjoined-IsSorted g (r ∷ rs) lt a s = ground (
  arith,
  adjoined-IsSorted g rs,
  All-raise r.hi_addr g.hi_addr rs,
  All-behind r.hi_addr g rs,
  All-adjoined r.hi_addr g rs,
)

-- Where the new range touches one on both sides, it is merged with the first alone.
adjoined-Covers :
    (g : ExtentRange) (rs : List ExtentRange) (addr : ℕ)
    → g.lo_addr < g.hi_addr
    → IsApart g rs
    → IsSorted rs
    → Covers (adjoined g rs) addr ↔ (Covers rs addr ⊎ InRange addr g)
unfolding adjoined
adjoined-Covers g [] addr lt a s = grind arith
adjoined-Covers g (r ∷ rs) addr lt a s =
    let rest = adjoined-Covers g rs addr lt a.1 s.2 in (ground arith, ground arith)

settle-finish :
    (e : Extents) (g : ExtentRange) (a : Adjoined) → (settle e g a).ranges ≡ finish g e.ranges 0 a
unfolding finish insert
settle-finish e g (grown rs) = refl
settle-finish e g (place k) = let h : k - 0 ≡ k = omega arith in rw h (ground arith)

-- Joining a nonempty range that overlaps none of the sorted ranges succeeds and keeps them sorted,
-- and an address is covered after it exactly if it was covered before or lies in the new range. The
-- range starts at a nonzero address and ends within 64 bits.
pub adjoin-IsSorted :
    (e : Extents) (lo_addr bytes : ℕ)
    → 0 < lo_addr
    → 0 < bytes
    → lo_addr + bytes < 2 ^ 64
    → IsSorted e.ranges
    → IsApart (make_range lo_addr bytes) e.ranges
    → (out : Extents) × (adjoin e lo_addr bytes ≡ some out)
      × IsSorted out.ranges
      × ((addr : ℕ)
          → Covers out.ranges addr
            ↔ (Covers e.ranges addr ⊎ ((lo_addr ≤ addr) × (addr < lo_addr + bytes))))
unfolding adjoin
adjoin-IsSorted e lo_addr bytes pos some_bytes fits s a =
    let g = make_range lo_addr bytes in
    let out = settle e g (adjoin_loop g e.ranges 0) in
    let lt : g.lo_addr < g.hi_addr = ground arith in
    let e1 : out.ranges ≡ adjoined g e.ranges =
      settle-finish e g (adjoin_loop g e.ranges 0) ∙ finish-adjoin_loop g e.ranges 0 in
    (
      out,
      rw (lt→ltb 0 lo_addr pos),
      rw e1 (adjoined-IsSorted g e.ranges lt a s),
      λ addr. rw e1 (ground (arith, adjoined-Covers g e.ranges addr lt a s)),
    )

last_hi-append :
    (rs : List ExtentRange) (lo hi : ℕ)
    → IsSorted rs
    → follows (last_hi rs) lo ≡ true
    → All (λ s. s.hi_addr ≤ lo) rs
last_hi-append [] lo hi s f = tt
last_hi-append (r ∷ []) lo hi s f = (ground arith, tt)
last_hi-append (r ∷ q ∷ rs) lo hi s f =
    let rest = last_hi-append (q ∷ rs) lo hi s.2 f in (ground arith, rest)

ranges-IsSorted :
    (rs : List ExtentRange) (g : ExtentRange)
    → g.lo_addr < g.hi_addr
    → IsSorted rs
    → All (λ s. s.hi_addr ≤ g.lo_addr) rs
    → IsSorted (rs ++ g ∷ [])
ranges-IsSorted [] g lt s a = (lt, tt, tt)
ranges-IsSorted (r ∷ rs) g lt s a = (
  s.0,
  All-append (λ t. r.hi_addr ≤ t.lo_addr) rs (g ∷ []) s.1 (a.0, tt),
  ranges-IsSorted rs g lt s.2 a.1,
)

append-Covers :
    (rs : List ExtentRange) (g : ExtentRange) (addr : ℕ)
    → Covers (rs ++ g ∷ []) addr ↔ (Covers rs addr ⊎ InRange addr g)
append-Covers [] g addr = grind arith
append-Covers (r ∷ rs) g addr = let rest = append-Covers rs g addr in (ground arith, ground arith)

make_range_lem :
    (lo_addr bytes : ℕ)
    → 0 < bytes
    → lo_addr + bytes < 2 ^ 64
    → let g = make_range lo_addr bytes in (g.lo_addr < g.hi_addr) × (g.hi_addr ≡ lo_addr + bytes)
unfolding make_range
make_range_lem lo_addr bytes some_bytes fits = (ground arith, ground arith)

append_inv :
    (e out : Extents) (lo_addr bytes : ℕ)
    → append e lo_addr bytes ≡ some out
    → (size e + 1 ≤ e.capacity)
      × (follows (last_hi e.ranges) lo_addr ≡ true)
      × (out ≡ record e { ranges = e.ranges ++ make_range lo_addr bytes ∷ [] })
unfolding append
append_inv e out lo_addr bytes h = ground arith

-- Whenever `extents_append` passes its assertions, appending a nonempty range that ends within 64
-- bits keeps the ranges sorted, adds exactly the addresses of the new range, and stays within the
-- capacity.
pub append-IsSorted :
    (e out : Extents) (lo_addr bytes : ℕ)
    → append e lo_addr bytes ≡ some out
    → 0 < bytes
    → lo_addr + bytes < 2 ^ 64
    → IsSorted e.ranges
    → IsSorted out.ranges
      × (size out ≤ out.capacity)
      × ((addr : ℕ)
          → Covers out.ranges addr
            ↔ (Covers e.ranges addr ⊎ ((lo_addr ≤ addr) × (addr < lo_addr + bytes))))
unfolding make_range
append-IsSorted e out lo_addr bytes h some_bytes fits s =
    let g = make_range lo_addr bytes in
    let (room, after, eq) = append_inv e out lo_addr bytes h in
    let (lt, hi) = make_range_lem lo_addr bytes some_bytes fits in
    let behind = last_hi-append e.ranges lo_addr g.hi_addr s after in
    rw eq (
      ranges-IsSorted e.ranges g lt s behind,
      omega (arith, length-append e.ranges (g ∷ [])),
      λ addr.
          subst
            (λ n.
              Covers (e.ranges ++ g ∷ []) addr
              ↔ (Covers e.ranges addr ⊎ ((lo_addr ≤ addr) × (addr < n))))
            hi (append-Covers e.ranges g addr),
    )
