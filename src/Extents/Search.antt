-- ===== src/Extents/Search.antt =====
-- The binary search of `extents_contain_addr` against a scan of the ranges.
use whippet.Base.{
  ℕ, zero, suc, ◌+◌, ◌-◌, ◌/◌, ◌≤◌, ◌<◌, ◌≡◌, refl, ◌⊎◌, inl, inr, List, [], ◌∷◌, Option, some, ltb,
  ◌==◌, if◌then◌else◌, ◌&&◌, sym, ap, ◌∙◌, leb, arith, Bool-cases, All-get_or, length, get_or,
  get_elem?-eq-get_or,
}
use whippet.Extents.{ExtentRange, Extents, contain_loop, contain_addr, IsSorted, InRange}

-- The first range that holds the address, from the left; 0 if none does.
unfoldable pub scan : List ExtentRange → ℕ → ℕ
scan [] addr = 0
scan (r ∷ rs) addr = if leb r.lo_addr addr && ltb addr r.hi_addr then r.lo_addr else scan rs addr

abbrev nowhere : ExtentRange
nowhere = record { lo_addr = 0; hi_addr = 0 }

abbrev at : List ExtentRange → ℕ → ExtentRange
at rs i = get_or rs i nowhere

-- In sorted ranges the one that holds the address is the one that the scan finds.
scan-at :
    (rs : List ExtentRange) (i addr : ℕ)
    → IsSorted rs
    → i < length rs
    → InRange addr (at rs i)
    → scan rs addr ≡ (at rs i).lo_addr
unfolding scan
scan-at [] i addr s h e = absurd (omega arith)
scan-at (r ∷ rs) zero addr s h e = ground arith
scan-at (r ∷ rs) (suc i) addr s h e =
    let later = All-get_or (λ t. r.hi_addr ≤ t.lo_addr) rs i nowhere s.1 (omega arith) in
    ground (arith, scan-at rs i addr s.2)

scan_outside :
    (rs : List ExtentRange) (addr : ℕ)
    → ((i : ℕ) → i < length rs → ((at rs i).hi_addr ≤ addr) ⊎ (addr < (at rs i).lo_addr))
    → scan rs addr ≡ 0
unfolding scan
scan_outside [] addr h = refl
scan_outside (r ∷ rs) addr h =
    let first = h 0 (omega arith) in
    let rest = scan_outside rs addr (λ i lt. h (suc i) (omega arith)) in ground arith

at-IsSorted :
    (rs : List ExtentRange) (i j : ℕ)
    → IsSorted rs
    → i < j
    → j < length rs
    → (at rs i).hi_addr ≤ (at rs j).lo_addr
at-IsSorted [] i j s ij h = absurd (omega arith)
at-IsSorted (r ∷ rs) i zero s ij h = absurd (omega arith)
at-IsSorted (r ∷ rs) zero (suc j) s ij h =
    All-get_or (λ t. r.hi_addr ≤ t.lo_addr) rs j nowhere s.1 (omega arith)
at-IsSorted (r ∷ rs) (suc i) (suc j) s ij h = at-IsSorted rs i j s.2 (omega arith) (omega arith)

at_bounds :
    (rs : List ExtentRange) (i : ℕ)
    → IsSorted rs
    → i < length rs
    → (at rs i).lo_addr < (at rs i).hi_addr
at_bounds [] i s h = absurd (omega arith)
at_bounds (r ∷ rs) zero s h = s.0
at_bounds (r ∷ rs) (suc i) s h = at_bounds rs i s.2 (omega arith)

-- All below `lo` end at or before the address; all from `hi` on start behind it.
record IsSplit (rs : List ExtentRange) (addr lo hi : ℕ) : Type 0 where
  below : (i : ℕ) → i < lo → (at rs i).hi_addr ≤ addr
  above : (i : ℕ) → hi ≤ i → i < length rs → addr < (at rs i).lo_addr

scan_split :
    (rs : List ExtentRange) (addr lo : ℕ) {hi : ℕ}
    → IsSplit rs addr lo hi
    → lo ≡ hi
    → scan rs addr ≡ 0
scan_split rs addr lo p e = scan_outside rs addr λ i lt. elim (Bool-cases (ltb i lo)) [
  | inl c ↦ inl (p.below i (ground arith))
  | inr c ↦ inr (p.above i (ground arith) lt)
]

IsSplit-left :
    (rs : List ExtentRange) (addr lo hi mid : ℕ)
    → IsSorted rs
    → IsSplit rs addr lo hi
    → mid < length rs
    → addr < (at rs mid).lo_addr
    → IsSplit rs addr lo mid
IsSplit-left rs addr lo hi mid s p h c = record {
  below = p.below;
  above = λ i le lt. elim (Bool-cases (i == mid)) [
    | inl e ↦ ground arith
    | inr e ↦ ground (arith, at-IsSorted rs mid i s, at_bounds rs mid s)
  ];
}

IsSplit-right :
    (rs : List ExtentRange) (addr lo hi mid : ℕ)
    → IsSorted rs
    → IsSplit rs addr lo hi
    → mid < length rs
    → (at rs mid).hi_addr ≤ addr
    → IsSplit rs addr (mid + 1) hi
IsSplit-right rs addr lo hi mid s p h c = record {
  below = λ i lt. elim (Bool-cases (i == mid)) [
    | inl e ↦ ground arith
    | inr e ↦ ground (arith, at-IsSorted rs i mid s, at_bounds rs mid s)
  ];
  above = p.above;
}

-- One round, whatever its three outcomes agree on.
contain_loop_round :
    (fuel : ℕ) (rs : List ExtentRange) (addr lo hi : ℕ) (out : Option ℕ)
    → lo < hi
    → hi ≤ length rs
    → let mid = (lo + hi) / 2 in
      (addr < (at rs mid).lo_addr → contain_loop fuel rs addr lo mid ≡ out)
      → ((at rs mid).hi_addr ≤ addr → contain_loop fuel rs addr (mid + 1) hi ≡ out)
      → (InRange addr (at rs mid) → some (at rs mid).lo_addr ≡ out)
      → contain_loop (suc fuel) rs addr lo hi ≡ out
unfolding contain_loop
contain_loop_round fuel rs addr lo hi out lt top left right here =
    ground (arith, get_elem?-eq-get_or rs ((lo + hi) / 2) nowhere, here)

contain_loop_end :
    (fuel : ℕ) (rs : List ExtentRange) (addr lo hi : ℕ)
    → lo ≡ hi
    → contain_loop (suc fuel) rs addr lo hi ≡ some 0
unfolding contain_loop
contain_loop_end fuel rs addr lo hi e = ground arith

contain_loop-scan :
    (fuel : ℕ) (rs : List ExtentRange) (addr lo hi : ℕ)
    → IsSorted rs
    → IsSplit rs addr lo hi
    → lo ≤ hi
    → hi ≤ length rs
    → hi - lo < fuel
    → contain_loop fuel rs addr lo hi ≡ some (scan rs addr)
contain_loop-scan zero rs addr lo hi s p le top f = absurd (omega arith)
contain_loop-scan (suc fuel) rs addr lo hi s p le top f =
    let mid = (lo + hi) / 2 in
    elim (Bool-cases (lo == hi)) [
      | inl e ↦
          let empty = scan_split rs addr lo p (ground arith) in
          contain_loop_end fuel rs addr lo hi (ground arith) ∙ ap some (sym empty)
      | inr e ↦
          let inside : mid < length rs = ground arith in
          let left = λ (c : addr < (at rs mid).lo_addr).
            contain_loop-scan fuel rs addr lo mid s (IsSplit-left rs addr lo hi mid s p inside c)
              (ground arith) (ground arith) (ground arith) in
          let right = λ (c : (at rs mid).hi_addr ≤ addr).
            contain_loop-scan fuel rs addr (mid + 1) hi s
              (IsSplit-right rs addr lo hi mid s p inside c) (ground arith) (ground arith)
              (ground arith) in
          contain_loop_round fuel rs addr lo hi (some (scan rs addr)) (ground arith) top left right
            (λ here. ap some (sym (scan-at rs mid addr s inside here)))
    ]

-- The binary search returns what the scan from the left finds, on every array of sorted ranges and
-- every address: it reads no slot out of range, and ends within as many rounds as there are ranges
-- and one more.
pub contain_addr-scan :
    (e : Extents) (addr : ℕ) → IsSorted e.ranges → contain_addr e addr ≡ some (scan e.ranges addr)
unfolding contain_addr
contain_addr-scan e addr s =
    contain_loop-scan (suc (length e.ranges)) e.ranges addr 0 (length e.ranges) s
      (record { below = λ i lt. absurd (omega arith); above = λ i le lt. absurd (omega arith) })
      (omega arith) (omega arith) (omega arith)
