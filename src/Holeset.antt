-- ===== src/Holeset.antt =====
-- src/nofl-holeset.h: the free holes of the nofl space, by size. A bucket is a list of holes, and a
-- bucket of a shared set a list of such lists, linked by `next_chain`. The mask of the buckets that
-- hold something is its 64 bits, the lowest first. Each critical section is one step.
-- The fields `next` and `next_chain` of a hole are its place in those lists, so the assertions that
-- they and the field of the size are 0 in unused memory (in `nofl_hole_push`, `nofl_hole_pop` and
-- `nofl_holeset_push_local`) are about memory that is not modelled, and are left out; all others are
-- written out.
pub mod Buckets
pub mod Covers
pub mod Pop
pub mod Share
mod Tests
use whippet.Base.{
  ℕ, zero, suc, ◌+◌, ◌-◌, ◌*◌, ◌/◌, List, [], ◌∷◌, Option, none, some, Bool, true, false, not,
  if◌then◌else◌, ltb, leb, ◌>>=◌, ◌>>◌, assert, get_or, set, drop, replicate,
}
use whippet.Base.Word.{sub_word}

-- `granules` is the field of a `nofl_hole_with_size`, which holes of the packed buckets do not have.
pub record Hole : Type 0 where
  pub addr : ℕ
  pub granules : ℕ

pub record Holeset : Type 0 where
  pub nonempty : List Bool
  pub buckets : List (List Hole)

pub record SharedHoleset : Type 0 where
  pub nonempty : List Bool
  pub buckets : List (List (List Hole))

abbrev pub packed_granules : ℕ
packed_granules = 50

abbrev pub sparse_count : ℕ
sparse_count = 64 - packed_granules - 1

abbrev pub max_granules : ℕ
max_granules = 512

-- NOFL_GRANULE_SIZE.
abbrev pub granule_size : ℕ
granule_size = 16

abbrev pub round_down : ℕ → ℕ → ℕ
round_down num denom = num / denom

abbrev pub round_up : ℕ → ℕ → ℕ
round_up num denom = (num + denom - 1) / denom

abbrev pub min : ℕ → ℕ → ℕ
min a b = if leb a b then a else b

-- The quotient of doubles, rounded, is the rounded quotient of the numbers as long as a hole's
-- granules are far below 2^50: a block has 4096.
unfoldable pub sparse_bucket : ℕ → Bool → Option ℕ
sparse_bucket granules for_insert = do
  assert (leb packed_granules granules)
  let num = (granules - packed_granules) * sparse_count
  let denom = max_granules - packed_granules
  let frac = if for_insert then round_down num denom else round_up num denom
  let idx = packed_granules + min frac sparse_count
  assert (ltb idx 64)
  some idx

unfoldable pub bucket_for_lookup : ℕ → Option ℕ
unfolding sparse_bucket
bucket_for_lookup granules =
    if leb granules packed_granules
    then some (sub_word granules 1)
    else sparse_bucket granules false

-- The bucket and the hole of `nofl_holeset_push_local`; the field was 0, as in all unused memory.
unfoldable pub hole_for_insert : ℕ → ℕ → Option (ℕ × Hole)
unfolding sparse_bucket
hole_for_insert addr granules =
    if leb granules packed_granules
    then (do assert (ltb 0 granules); some (granules - 1, record { addr = addr; granules = 0 }))
    else (do
      idx ← sparse_bucket granules true
      some (idx, record { addr = addr; granules = granules }))

abbrev pub hole_push : Holeset → ℕ → Hole → Holeset
hole_push s idx hole = record {
  nonempty = set s.nonempty idx true;
  buckets = set s.buckets idx (hole ∷ get_or s.buckets idx []);
}

unfoldable pub push_local : Holeset → ℕ → ℕ → Option Holeset
unfolding hole_for_insert
push_local local addr granules = do
  (idx, hole) ← hole_for_insert addr granules
  some (hole_push local idx hole)

abbrev pub hole_tail_address : ℕ → ℕ → ℕ
hole_tail_address hole granules = hole + granules * granule_size

-- `__builtin_ctzll` on a mask with a bit set.
unfoldable pub ctz : List Bool → Option ℕ
ctz [] = none
ctz (true ∷ bits) = some 0
ctz (false ∷ bits) = do i ← ctz bits; some (suc i)

unfoldable pub flip_bit : List Bool → ℕ → List Bool
flip_bit bits idx = set bits idx (not (get_or bits idx false))

abbrev pub is_null {ℓ} : {A : Type ℓ} → List A → Bool
is_null [] = true
is_null (x ∷ xs) = false

-- `nofl_hole_pop`, and the mask's bit.
unfoldable pub hole_pop : Holeset → ℕ → Option (Hole × Holeset)
unfolding flip_bit
hole_pop s idx = elim (get_or s.buckets idx []) [
  | [] ↦ none
  | hole ∷ next ↦ do
    assert (get_or s.nonempty idx false)
    let left = if is_null next then flip_bit s.nonempty idx else s.nonempty
    some (hole, record { nonempty = left; buckets = set s.buckets idx next })
]

abbrev pub hole_granules : ℕ → Hole → ℕ
hole_granules idx hole = if ltb idx packed_granules then idx + 1 else hole.granules

-- From the pop of the hole in bucket `idx` on.
unfoldable pub take_hole : Holeset → ℕ → ℕ → Option (Option ℕ × Holeset)
unfolding hole_pop push_local
take_hole holes idx granules = do
  (hole, left) ← hole_pop holes idx
  let size = hole_granules idx hole
  assert (ltb 0 size)
  assert (leb granules size)
  let tail_granules = size - granules
  elim (ltb 0 tail_granules) [
    | true ↦ do
      s ← push_local left (hole_tail_address hole.addr granules) tail_granules
      some (some hole.addr, s)
    | false ↦ some (some hole.addr, left)
  ]

-- `none` inside is the null reference.
unfoldable pub try_pop : Holeset → ℕ → Option (Option ℕ × Holeset)
unfolding take_hole bucket_for_lookup ctz
try_pop holes granules = do
  assert (leb granules max_granules)
  min_idx ← bucket_for_lookup granules
  elim (ctz (drop min_idx holes.nonempty)) [
    | none ↦ some (none, holes)
    | some k ↦ take_hole holes (min_idx + k) granules
  ]

-- The loop over the buckets that hold something, from the lowest; the others have nothing to move.
unfoldable pub release_buckets :
    List Bool
    → List (List Hole)
    → List (List (List Hole))
    → List (List Hole) × List (List (List Hole))
release_buckets [] local remote = (local, remote)
release_buckets (bit ∷ bits) [] remote = ([], remote)
release_buckets (bit ∷ bits) (b ∷ local) [] = (b ∷ local, [])
release_buckets (bit ∷ bits) (b ∷ local) (chain ∷ remote) =
    let (local', remote') = release_buckets bits local remote in
    if bit then ([] ∷ local', (b ∷ chain) ∷ remote') else (b ∷ local', chain ∷ remote')

abbrev pub or_bits : List Bool → List Bool → List Bool
or_bits [] ys = ys
or_bits (x ∷ xs) [] = x ∷ xs
or_bits (x ∷ xs) (y ∷ ys) = (if x then true else y) ∷ or_bits xs ys

unfoldable pub release : Holeset → SharedHoleset → Holeset × SharedHoleset
unfolding release_buckets ctz
release local remote = elim (ctz local.nonempty) [
  | none ↦ (local, remote)
  | some _ ↦
      let (local', remote') = release_buckets local.nonempty local.buckets remote.buckets in
      (
        record { nonempty = replicate 64 false; buckets = local' },
        record { nonempty = or_bits remote.nonempty local.nonempty; buckets = remote' },
      )
]

-- Behind the lock, at a bucket that holds a chain. The first test, before the lock, reads the mask at
-- some earlier time: that is `sloppy_nonempty`.
unfoldable pub acquire_chain : Holeset → SharedHoleset → ℕ → Option (Bool × Holeset × SharedHoleset)
unfolding flip_bit
acquire_chain local remote idx = do
  assert (is_null (get_or local.buckets idx []))
  elim (get_or remote.buckets idx []) [
    | [] ↦ none
    | chain ∷ next_chain ↦
        let left = if is_null next_chain then flip_bit remote.nonempty idx else remote.nonempty in
        some (
          true,
          record { nonempty = set local.nonempty idx true; buckets = set local.buckets idx chain },
          record { nonempty = left; buckets = set remote.buckets idx next_chain },
        )
  ]

unfoldable pub acquire :
    List Bool → Holeset → SharedHoleset → ℕ → Option (Bool × Holeset × SharedHoleset)
unfolding acquire_chain bucket_for_lookup ctz
acquire sloppy_nonempty local remote granules = do
  min_idx ← bucket_for_lookup granules
  elim (ctz (drop min_idx sloppy_nonempty)) [
    | none ↦ some (false, local, remote)
    | some _ ↦ elim (ctz (drop min_idx remote.nonempty)) [
      | none ↦ some (false, local, remote)
      | some k ↦ acquire_chain local remote (min_idx + k)
    ]
  ]

unfoldable pub clear : Holeset
clear = record { nonempty = replicate 64 false; buckets = replicate 64 [] }
