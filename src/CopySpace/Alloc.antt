-- ===== src/CopySpace/Alloc.antt =====
-- src/copy-space.h: allocators, which bump a pointer through the active region of a block.
pub mod Valid
pub mod Obtain
pub mod Acquire
pub mod PartlyFull
pub mod Allocate
pub mod Cycle
use whippet.Base.{
  ℕ, zero, suc, ◌+◌, ◌-◌, ◌%◌, List, [], ◌∷◌, Option, none, some, Bool, true, false, if◌then◌else◌,
  ltb, leb, ◌==◌, ◌>>=◌, ◌>>◌, assert, length,
}
use whippet.Base.Int.{pos, ◌+ℤ◌}
use whippet.Extents.{Extents}
use whippet.CopySpace.Logging.{Log, clear_region}
use whippet.CopySpace.Layout.{align_up, region_size, block_size, region_start}
use whippet.CopySpace.State.{
  Block, Space, flag, set_flag, pop_empty_block, pop_partly_full_block, push_full_block,
  push_partly_full_block, page_in_block,
}

pub record Allocator : Type 0 where
  pub hp : ℕ
  pub limit : ℕ
  pub block : Option Block

unfoldable pub allocator_init : Allocator
allocator_init = record { hp = 0; limit = 0; block = none }

unfoldable pub set_block : Block → Bool → Allocator
set_block b active_region =
    let start = region_start b.addr active_region in
    record { hp = start; limit = start + region_size; block = some b }

unfoldable pub obtain_empty_block_during_gc : Space → Option (Option Block × Space)
unfolding page_in_block pop_empty_block
obtain_empty_block_during_gc s =
    let (popped, s') = pop_empty_block s in
    elim popped [
      | some b ↦ none
      | none ↦
          let (paged, s'') = page_in_block s' in
          elim paged [
            | none ↦ some (none, s'')
            | some b ↦
                some (
                  some b,
                  record s'' { bytes_to_page_out = s''.bytes_to_page_out +ℤ pos block_size },
                )
          ]
    ]

-- What an empty block is made before use: in core, and known to be zeroed no longer.
abbrev pub use_block : Block → Bool → Block
use_block b active_region = record b {
  in_core = true;
  all_zeroes = set_flag b.all_zeroes active_region false;
}

-- The block of `acquire_empty_block`, behind the lock.
unfoldable pub obtain_empty_block : Space → Option (Option Block × Space)
unfolding pop_empty_block obtain_empty_block_during_gc
obtain_empty_block s =
    let (popped, s') = pop_empty_block s in
    elim popped [
      | some b ↦ some (some b, s')
      | none ↦ elim s.in_gc [ false ↦ some (none, s') | true ↦ obtain_empty_block_during_gc s' ]
    ]

-- A region that is not known to be zeroed is zeroed, which the model does not see, and its logging
-- bits are cleared.
unfoldable pub zero_region : Extents → Bool → Log → Block → Bool → Option Log
unfolding clear_region
zero_region extents has_field_logging_bits log b active_region =
    if flag b.all_zeroes active_region
    then some log
    else clear_region extents has_field_logging_bits log (region_start b.addr active_region)

-- The allocator's new state; `none` inside is the answer 0.
unfoldable pub acquire_empty_block :
    Extents → Bool → Log → Space → Option ((Option Allocator × Space) × Log)
unfolding obtain_empty_block zero_region set_block
acquire_empty_block extents has_field_logging_bits log s = do
  (obtained, s') ← obtain_empty_block s
  elim obtained [
    | none ↦ some ((none, s'), log)
    | some b ↦ do
      log' ← zero_region extents has_field_logging_bits log b s.active_region
      some ((some (set_block (use_block b s.active_region) s.active_region), s'), log')
  ]

unfoldable pub acquire_partly_full_block : Space → Option Allocator × Space
unfolding pop_partly_full_block set_block
acquire_partly_full_block s =
    let (popped, s') = pop_partly_full_block s in
    elim popped [
      | none ↦ (none, s')
      | some b ↦
          let alloc = set_block b s.active_region in
          (some (record alloc { hp = alloc.hp + b.allocated }), s')
    ]

-- `none` is a null block.
unfoldable pub release_full_block : Allocator → Space → Option (Allocator × Space)
unfolding push_full_block
release_full_block alloc s = elim alloc.block [
  | none ↦ none
  | some b ↦
      let s' = record s {
        allocated_bytes = s.allocated_bytes + (region_size - b.allocated);
        fragmentation = s.fragmentation + (alloc.limit - alloc.hp);
      } in
      some (record { hp = 0; limit = 0; block = none }, push_full_block s' b)
]

unfoldable pub release_partly_full_block : Allocator → Space → Option (Allocator × Space)
unfolding push_full_block push_partly_full_block
release_partly_full_block alloc s = elim alloc.block [
  | none ↦ none
  | some b ↦
      let allocated = alloc.hp % region_size in
      let released : Allocator = record { hp = 0; limit = 0; block = none } in
      if ltb 0 allocated
      then some (
        released,
        push_partly_full_block
            (record s { allocated_bytes = s.allocated_bytes + (allocated - b.allocated) })
            (record b { allocated = allocated }),
      )
      else some (
        released,
        push_full_block
            (record s { allocated_bytes = s.allocated_bytes + (region_size - b.allocated) }) b,
      )
]

-- Room for `size` bytes was found, or all partly full blocks were given up.
pub data Found : Type 0 where
  room : Allocator → Space → Found
  exhausted : Space → Found

-- The loop over the partly full blocks, with fuel for one round more than there are.
unfoldable pub partly_full_loop : ℕ → Space → ℕ → Option Found
partly_full_loop zero s size = none
partly_full_loop (suc fuel) s size =
    let (acquired, s') = acquire_partly_full_block s in
    elim acquired [
      | none ↦ some (exhausted s')
      | some alloc ↦ elim (leb (alloc.hp + size) alloc.limit) [
        | true ↦ some (room alloc s')
        | false ↦ elim (release_full_block alloc s') [
          | none ↦ none
          | some (_, s'') ↦ partly_full_loop fuel s'' size
        ]
      ]
    ]

-- From `done:` on.
unfoldable pub bump : Allocator → Space → ℕ → Option ℕ × Allocator × Space
bump alloc s size = (some alloc.hp, record alloc { hp = alloc.hp + size }, s)

-- The space's extents, whether it has field-logging bits, and the bits.
unfoldable pub refill :
    Extents → Bool → Log → Space → ℕ → Option ((Option ℕ × Allocator × Space) × Log)
unfolding bump partly_full_loop acquire_empty_block
refill extents has_field_logging_bits log s size = do
  found ← partly_full_loop (suc (length s.partly_full)) s size
  elim found [
    | room alloc s' ↦ some (bump alloc s' size, log)
    | exhausted s' ↦ do
      ((acquired, s''), log') ← acquire_empty_block extents has_field_logging_bits log s'
      elim acquired [
        | none ↦ some ((none, allocator_init, s''), log')
        | some alloc ↦ some (bump alloc s'' size, log')
      ]
  ]

-- The collector's size limit and granule are its embedder's; `none` inside is the null reference.
module _ (large_threshold granule : ℕ) (extents : Extents) (has_field_logging_bits : Bool) where
  unfoldable pub allocate :
      Log → Allocator → Space → ℕ → Option ((Option ℕ × Allocator × Space) × Log)
  unfolding refill bump release_full_block
  allocate log alloc s size = do
    assert (ltb 0 size)
    assert (leb size large_threshold)
    let size' = align_up size granule
    elim (leb (alloc.hp + size') alloc.limit) [
      | true ↦ some (bump alloc s size', log)
      | false ↦ elim alloc.block [
        | none ↦ refill extents has_field_logging_bits log s size'
        | some b ↦ do
          (_, s') ← release_full_block alloc s
          refill extents has_field_logging_bits log s' size'
      ]
    ]

unfoldable pub allocator_finish : Allocator → Space → Option (Allocator × Space)
unfolding release_partly_full_block
allocator_finish alloc s = elim alloc.block [
  | none ↦ some (alloc, s)
  | some b ↦ release_partly_full_block alloc s
]

-- The loop of a minor collection's end, which gives up every partly full block.
pub close_loop : ℕ → Space → Option Space
close_loop zero s = none
close_loop (suc fuel) s =
    let (acquired, s') = acquire_partly_full_block s in
    elim acquired [
      | none ↦ some s'
      | some alloc ↦ elim (release_full_block alloc s') [
        | none ↦ none
        | some (_, s'') ↦ close_loop fuel s''
      ]
    ]

abbrev pub note_gc : Space → Space
note_gc s = record s {
  allocated_bytes_at_last_gc = s.allocated_bytes;
  fragmentation_at_last_gc = s.fragmentation;
  in_gc = false;
}

pub finish_gc : Space → Bool → Option Space
finish_gc s is_minor_gc = elim is_minor_gc [
  | false ↦ some (note_gc s)
  | true ↦ do s' ← close_loop (suc (length s.partly_full)) s; some (note_gc s')
]
