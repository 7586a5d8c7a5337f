-- ===== src/CopySpace/Alloc/Valid.antt =====
-- Blocks are conserved, and allocated bytes are accounted for, by the operations of an allocator.
use whippet.Base.{
  ℕ, ◌+◌, ◌*◌, ◌≤◌, ◌≡◌, refl, List, [], ◌∷◌, none, some, Bool, ◌==◌, arith, All, length, tick,
}
use whippet.CopySpace.Layout.{region_size, region_start}
use whippet.CopySpace.State.{Block, Space, PagedOut, push_full_block}
use whippet.CopySpace.Alloc.{Allocator, release_full_block}

abbrev pub allocated_sum : List Block → ℕ
allocated_sum [] = 0
allocated_sum (b ∷ bs) = b.allocated + allocated_sum bs

-- The bytes that the blocks with objects account for; a full block counts whole.
abbrev pub bytes_in : Space → ℕ
bytes_in s = allocated_sum s.partly_full + region_size * length s.full

abbrev pub held_bytes : Allocator → ℕ
held_bytes alloc = elim alloc.block [ none ↦ 0 | some b ↦ b.allocated ]

-- How often a block's header stands in a list, in the lists of the space, in an allocator.
abbrev pub header_count : ℕ → List Block → ℕ
header_count x [] = 0
header_count x (b ∷ bs) = tick (x == b.addr) + header_count x bs

abbrev pub paged_out_at : ℕ → PagedOut → ℕ
paged_out_at x p =
    header_count x p.age0 + header_count x p.age1 + header_count x p.age2 + header_count x p.age3

abbrev pub listed : ℕ → Space → ℕ
listed x s =
    header_count x s.empty
    + header_count x s.partly_full
    + header_count x s.full
    + paged_out_at x s.paged_out

abbrev pub held_at : ℕ → Allocator → ℕ
held_at x alloc = elim alloc.block [ none ↦ 0 | some b ↦ tick (x == b.addr) ]

abbrev pub IsUnused : Block → Type 0
IsUnused b = b.allocated ≡ 0

pub record PagedOutIsValid (p : PagedOut) : Type 0 where
  pub unused0 : All IsUnused p.age0
  pub unused1 : All IsUnused p.age1
  pub unused2 : All IsUnused p.age2
  pub unused3 : All IsUnused p.age3

pub record SpaceIsValid (s : Space) : Type 0 where
  pub partly_full_fits : All (λ b. b.allocated ≤ region_size) s.partly_full
  pub paged_out_unused : PagedOutIsValid s.paged_out

abbrev pub HoldsBlock : Bool → Allocator → Block → Type 0
HoldsBlock region alloc b =
    let start = region_start b.addr region in
    (alloc.limit ≡ start + region_size)
    × (start + b.allocated ≤ alloc.hp)
    × (alloc.hp ≤ alloc.limit)

-- An allocator without a block has no room; one with a block bumps through the block's active region.
pub record AllocatorIsValid (region : Bool) (alloc : Allocator) : Type 0 where
  pub at_rest : alloc.block ≡ none → (alloc.hp ≡ 0) × (alloc.limit ≡ 0)
  pub in_block : (b : Block) → alloc.block ≡ some b → HoldsBlock region alloc b

-- No block is lost or doubled, and the change of the count of allocated bytes is that of the bytes in
-- the space's blocks and of those that the allocator's block had when it was taken.
pub record Keeps (alloc : Allocator) (s : Space) (alloc' : Allocator) (s' : Space) : Type 0 where
  pub conserved : (x : ℕ) → listed x s' + held_at x alloc' ≡ listed x s + held_at x alloc
  pub accounted :
      s'.allocated_bytes + bytes_in s + held_bytes alloc
      ≡ s.allocated_bytes + bytes_in s' + held_bytes alloc'
  pub same_region : s'.active_region ≡ s.active_region
  pub space_valid : SpaceIsValid s'
  pub allocator_valid : AllocatorIsValid s'.active_region alloc'

pub Keeps-trans :
    {a b c : Allocator} {s t u : Space} → Keeps a s b t → Keeps b t c u → Keeps a s c u
Keeps-trans k l = record {
  conserved = λ x. omega (arith, k.conserved x, l.conserved x);
  accounted = omega (arith, k.accounted, l.accounted);
  same_region = cc (k.same_region, l.same_region);
  space_valid = l.space_valid;
  allocator_valid = l.allocator_valid;
}

-- An allocator that has given its block back.
abbrev pub at_rest : Allocator
at_rest = record { hp = 0; limit = 0; block = none }

pub at_rest-IsValid : (region : Bool) → AllocatorIsValid region at_rest
at_rest-IsValid region = record { at_rest = λ e. (refl, refl); in_block = λ b e. cc }

pub release_full_block-Keeps :
    (hp limit : ℕ) (b : Block) (s : Space)
    → let alloc : Allocator = record { hp = hp; limit = limit; block = some b } in
      AllocatorIsValid s.active_region alloc
      → SpaceIsValid s
      → (s' : Space) × (release_full_block alloc s ≡ some (at_rest, s'))
        × Keeps alloc s at_rest s'
        × (s'.partly_full ≡ s.partly_full)
        × (s'.empty ≡ s.empty)
        × (s'.paged_out ≡ s.paged_out)
unfolding release_full_block push_full_block
release_full_block-Keeps hp limit b s av sv =
    let inb = av.in_block b refl in
    (
      _,
      refl,
      record {
        conserved = λ x. ground arith;
        accounted = ground arith;
        same_region = ground arith;
        space_valid = ground (arith, sv.partly_full_fits, sv.paged_out_unused);
        allocator_valid = at_rest-IsValid _;
      },
      ground arith,
      ground arith,
      ground arith,
    )
