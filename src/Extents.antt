-- ===== src/Extents.antt =====
-- src/extents.h: a sorted array of address ranges. The array's live part is the list `ranges`, so
-- `size` is its length; the slots above it are never read.
pub mod Search
pub mod Sorted
mod Tests
use whippet.Base.{
  ℕ, zero, suc, ◌+◌, ◌-◌, ◌*◌, ◌/◌, ◌≤◌, ◌<◌, ◌≡◌, ◌⊎◌, List, [], ◌∷◌, ◌++◌, Option, none, some,
  Bool, true, false, ltb, leb, ◌==◌, if◌then◌else◌, ◌>>=◌, ◌>>◌, assert, ◌&&◌, ◌||◌, All, length,
  get_elem?, take, drop,
}
use whippet.Base.Word.{word}

pub record ExtentRange : Type 0 where
  pub lo_addr : ℕ
  pub hi_addr : ℕ

pub record Extents : Type 0 where
  pub capacity : ℕ
  pub ranges : List ExtentRange

abbrev pub size : Extents → ℕ
size e = length e.ranges

-- The loop of `extents_contain_addr`: `none` is a read out of range, or fuel that ran out.
unfoldable pub contain_loop : ℕ → List ExtentRange → ℕ → ℕ → ℕ → Option ℕ
contain_loop zero ranges addr lo hi = none
contain_loop (suc fuel) ranges addr lo hi = elim (lo == hi) [
  | true ↦ some 0
  | false ↦ do
    let mid = (lo + hi) / 2
    range ← get_elem? ranges mid
    let left = contain_loop fuel ranges addr lo mid
    let right = contain_loop fuel ranges addr (mid + 1) hi
    if ltb addr range.lo_addr
        then left
        else if ltb addr range.hi_addr
        then some range.lo_addr
        else right
]

unfoldable pub contain_addr : Extents → ℕ → Option ℕ
contain_addr e addr = contain_loop (suc (size e)) e.ranges addr 0 (size e)

unfoldable pub allocate : ℕ → Extents
allocate capacity = record { capacity = capacity; ranges = [] }

-- Both branches shift the ranges from `idx` on by one; the second moves to a larger array.
unfoldable pub insert : Extents → ℕ → ExtentRange → Extents
insert old idx range =
    let ranges = take idx old.ranges ++ range ∷ drop idx old.ranges in
    if ltb (size old) old.capacity
    then record old { ranges = ranges }
    else record { capacity = old.capacity * 2 + 1; ranges = ranges }

-- What the loop of `extents_adjoin` ends with: a range grew in place, or the index to insert at.
pub data Adjoined : Type 0 where
  grown : List ExtentRange → Adjoined
  place : ℕ → Adjoined

abbrev pub pass : ExtentRange → Adjoined → Adjoined
pass r (grown rs) = grown (r ∷ rs)
pass r (place i) = place i

unfoldable pub adjoin_loop : ExtentRange → List ExtentRange → ℕ → Adjoined
adjoin_loop range [] i = place i
adjoin_loop range (r ∷ rs) i =
    if ltb range.hi_addr r.lo_addr
    then place i
    else if range.hi_addr == r.lo_addr
    then grown (record r { lo_addr = range.lo_addr } ∷ rs)
    else if range.lo_addr == r.hi_addr
    then grown (record r { hi_addr = range.hi_addr } ∷ rs)
    else pass r (adjoin_loop range rs (i + 1))

unfoldable pub make_range : ℕ → ℕ → ExtentRange
make_range lo_addr size = record { lo_addr = lo_addr; hi_addr = word (lo_addr + size) }

abbrev pub settle : Extents → ExtentRange → Adjoined → Extents
settle e range (grown rs) = record e { ranges = rs }
settle e range (place i) = insert e i range

unfoldable pub adjoin : Extents → ℕ → ℕ → Option Extents
unfolding make_range
adjoin e lo_addr bytes = do
  assert (ltb 0 lo_addr)
  let range = make_range lo_addr bytes
  some (settle e range (adjoin_loop range e.ranges 0))

unfoldable pub clear : Extents → Extents
clear e = record e { ranges = [] }

unfoldable pub prepare : Extents → ℕ → Extents
unfolding clear allocate
prepare e n =
    if leb n (size e)
    then clear e
    else let capacity = size e * 2 in allocate (if ltb capacity n then n else capacity)

-- The end of the last range, against which `extents_append` checks the order.
abbrev pub last_hi : List ExtentRange → Option ℕ
last_hi [] = none
last_hi (r ∷ []) = some r.hi_addr
last_hi (r ∷ s ∷ rs) = last_hi (s ∷ rs)

abbrev pub follows : Option ℕ → ℕ → Bool
follows none lo = true
follows (some hi) lo = leb hi lo

unfoldable pub append : Extents → ℕ → ℕ → Option Extents
unfolding make_range
append e lo_addr bytes = do
  assert (leb (size e + 1) e.capacity)
  assert (follows (last_hi e.ranges) lo_addr)
  some (record e { ranges = e.ranges ++ make_range lo_addr bytes ∷ [] })

abbrev pub InRange : ℕ → ExtentRange → Type 0
InRange addr r = (r.lo_addr ≤ addr) × (addr < r.hi_addr)

-- Ranges in increasing order, none empty, with no overlap.
abbrev pub IsSorted : List ExtentRange → Type 0
IsSorted [] = Unit
IsSorted (r ∷ rs) = (r.lo_addr < r.hi_addr) × All (λ s. r.hi_addr ≤ s.lo_addr) rs × IsSorted rs

abbrev pub Covers : List ExtentRange → ℕ → Type 0
Covers [] addr = ⊥
Covers (r ∷ rs) addr = InRange addr r ⊎ Covers rs addr
