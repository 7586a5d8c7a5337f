-- ===== src/Extents/Tests.antt =====
-- Runs of the extents array, and its theorems at concrete ranges.
use whippet.Base.{ℕ, ◌≡◌, ◌+◌, ◌≤◌, ◌<◌, ◌⊎◌, ◌↔◌, refl, [], ◌∷◌, some, none, inl, inr, arith}
use whippet.Extents.{
  ExtentRange, Extents, contain_addr, contain_loop, adjoin, adjoin_loop, append, make_range,
  IsSorted, Covers,
}
use whippet.Extents.Search.{scan, contain_addr-scan}
use whippet.Extents.Sorted.{adjoin-IsSorted}

abbrev range : ℕ → ℕ → ExtentRange
range lo hi = record { lo_addr = lo; hi_addr = hi }

abbrev three : Extents
three = record { capacity = 4; ranges = range 10 20 ∷ range 30 40 ∷ range 50 60 ∷ [] }

search_runs :
    (contain_addr three 35 ≡ some 30)
    × (contain_addr three 40 ≡ some 0)
    × (contain_addr three 59 ≡ some 50)
unfolding contain_addr contain_loop
search_runs = (refl, refl, refl)

-- A range that touches one on both sides is merged with the first alone.
adjoin_between :
    adjoin three 20 10
    ≡ some (record three { ranges = range 10 30 ∷ range 30 40 ∷ range 50 60 ∷ [] })
unfolding adjoin adjoin_loop
adjoin_between = refl

append_out_of_order : append three 45 5 ≡ none
unfolding append
append_out_of_order = refl

contain_addr-scan_example : contain_addr three 35 ≡ some (scan three.ranges 35)
contain_addr-scan_example = contain_addr-scan three 35 (omega arith)

adjoin-IsSorted_example :
    (out : Extents) × (adjoin three 22 5 ≡ some out)
    × IsSorted out.ranges
    × ((addr : ℕ)
        → Covers out.ranges addr ↔ (Covers three.ranges addr ⊎ ((22 ≤ addr) × (addr < 22 + 5))))
unfolding make_range
adjoin-IsSorted_example =
    adjoin-IsSorted three 22 5 (omega arith) (omega arith) (omega arith) (omega arith)
      (inr (omega arith), (inl (omega arith), (inl (omega arith), tt)))

abbrev four : Extents
four = record three { ranges = range 10 20 ∷ range 30 40 ∷ range 50 60 ∷ range 60 70 ∷ [] }
