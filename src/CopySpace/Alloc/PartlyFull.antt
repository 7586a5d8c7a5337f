-- ===== src/CopySpace/Alloc/PartlyFull.antt =====
-- Taking partly full blocks, until one has room.
use whippet.Base.{
  ℕ, zero, suc, ◌+◌, ◌≤◌, ◌<◌, ◌≡◌, refl, List, [], ◌∷◌, Option, some, leb, arith, ◌∙◌, Bool-cases,
  inl, inr, length,
}
use whippet.CopySpace.Layout.{region_size, region_start}
use whippet.CopySpace.State.{Block, Space, pop_partly_full_block}
use whippet.CopySpace.Alloc.{
  Allocator, Found, acquire_partly_full_block, set_block, room, exhausted, partly_full_loop,
}
use whippet.CopySpace.Alloc.Valid.{
  SpaceIsValid, Keeps, Keeps-trans, at_rest, release_full_block-Keeps, at_rest-IsValid,
}

abbrev pub IsHolding : Allocator → Type 0
IsHolding alloc = (b : Block) × (alloc.block ≡ some b)

-- The block of the list's head, taken by an allocator at rest.
pub take_partly_full :
    (b : Block) (rest : List Block) (s : Space)
    → let before = record s { partly_full = b ∷ rest } in
      SpaceIsValid before
      → let start = region_start b.addr s.active_region in
        let alloc : Allocator = record {
          hp = start + b.allocated;
          limit = start + region_size;
          block = some b;
        } in
        let after = record s { partly_full = rest } in
        (acquire_partly_full_block before ≡ (some alloc, after)) × Keeps at_rest before alloc after
unfolding acquire_partly_full_block pop_partly_full_block set_block
take_partly_full b rest s v = (
  refl,
  record {
    conserved = λ x. omega arith;
    accounted = omega arith;
    same_region = refl;
    space_valid = record {
      partly_full_fits = v.partly_full_fits.1;
      paged_out_unused = v.paged_out_unused;
    };
    allocator_valid = record {
      at_rest = λ e. cc;
      in_block = λ c e. ground (arith, v.partly_full_fits.0);
    };
  },
)

-- The blocks without objects stay as they are.
abbrev pub SameUnused : Space → Space → Type 0
SameUnused s s' = (s'.empty ≡ s.empty) × (s'.paged_out ≡ s.paged_out)

-- What the loop over the partly full blocks found, from an allocator at rest.
pub data Finds (s : Space) (size : ℕ) : Option Found → Type 0 where
  found :
      (alloc : Allocator) (s' : Space)
      → Keeps at_rest s alloc s'
      → alloc.hp + size ≤ alloc.limit
      → IsHolding alloc
      → Finds s size (some (room alloc s'))
  gave_up :
      (s' : Space)
      → Keeps at_rest s at_rest s'
      → SameUnused s s'
      → Finds s size (some (exhausted s'))

Finds-trans :
    {s t : Space} {size : ℕ} {out : Option Found}
    → Keeps at_rest s at_rest t
    → SameUnused s t
    → Finds t size out
    → Finds s size out
Finds-trans k same (found alloc s' l fits h) = Finds.found alloc s' (Keeps-trans k l) fits h
Finds-trans k (e, p) (gave_up s' l (e', p')) = Finds.gave_up s' (Keeps-trans k l) (e' ∙ e, p' ∙ p)

partly_full_loop_round :
    (fuel : ℕ) (b : Block) (rest : List Block) (s : Space) (size : ℕ)
    → let before = record s { partly_full = b ∷ rest } in
      SpaceIsValid before
      → ((t : Space)
          → t.partly_full ≡ rest
          → SpaceIsValid t
          → Finds t size (partly_full_loop fuel t size))
      → Finds before size (partly_full_loop (suc fuel) before size)
unfolding partly_full_loop acquire_partly_full_block pop_partly_full_block set_block
partly_full_loop_round fuel b rest s size v next =
    let start = region_start b.addr s.active_region in
    let (_, k) = take_partly_full b rest s v in
    let (s', freed, l, same, empties, paged) =
      release_full_block-Keeps (start + b.allocated) (start + region_size) b
        (record s { partly_full = rest }) k.allocator_valid k.space_valid in
    elim (Bool-cases (leb (start + b.allocated + size) (start + region_size))) [
      | inl e ↦ rw (partly_full_loop, e) (Finds.found _ _ k (ground arith) (b, refl))
      | inr e ↦
          rw (partly_full_loop, e, freed)
            (Finds-trans (Keeps-trans k l) (empties, paged) (next s' same l.space_valid))
    ]

pub partly_full_loop-Finds :
    (fuel : ℕ) (blocks : List Block) (s : Space) (size : ℕ)
    → length blocks < fuel
    → let before = record s { partly_full = blocks } in
      SpaceIsValid before → Finds before size (partly_full_loop fuel before size)
unfolding partly_full_loop acquire_partly_full_block pop_partly_full_block
partly_full_loop-Finds zero blocks s size h v = absurd (omega arith)
partly_full_loop-Finds (suc fuel) [] s size h v =
    Finds.gave_up _
      record {
        conserved = λ x. omega arith;
        accounted = omega arith;
        same_region = refl;
        space_valid = v;
        allocator_valid = at_rest-IsValid _;
      }
      (refl, refl)
partly_full_loop-Finds (suc fuel) (b ∷ rest) s size h v =
    partly_full_loop_round fuel b rest s size v
      (λ t e w. partly_full_loop-Finds fuel t.partly_full t size (rw e (omega arith)) w)
