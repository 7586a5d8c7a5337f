-- ===== src/CopySpace/Tests.antt =====
-- Runs of a copy space, and its theorems at concrete spaces.
use whippet.Base.{
  ℕ, ◌+◌, ◌*◌, ◌≤◌, ◌<◌, ◌%◌, ◌≡◌, refl, [], ◌∷◌, none, some, Bool, true, false, not, arith, tick,
}
use whippet.Base.Int.{pos, ◌-ℤ◌}
use whippet.CopySpace.Layout.{
  align_down, align_up, block_size, slab_size, header_bytes_per_slab, region_size, block_for_addr,
  block_payload, region_start, object_region, block_payload-block_for_addr, region_start_lem,
}
use whippet.CopySpace.State.{
  Block, Flags, Space, page_out_blocks_until_memory_released, maybe_reacquire_memory,
}
use whippet.Extents.{Extents, contain_addr, contain_loop}
use whippet.CopySpace.Logging.{
  Log, clear_region, contains_address, field_logged_byte, field_logged_bit,
}
use whippet.CopySpace.Logging.Fields.{logged}
use whippet.CopySpace.Alloc.Obtain.{UnusedInside}
use whippet.CopySpace.Alloc.{
  acquire_empty_block, zero_region, obtain_empty_block, Allocator, allocate, allocator_finish,
  finish_gc, partly_full_loop, acquire_partly_full_block, release_full_block, refill, bump,
}
use whippet.CopySpace.Alloc.Valid.{SpaceIsValid, AllocatorIsValid, at_rest, at_rest-IsValid}
use whippet.CopySpace.Alloc.Allocate.{Allocates, allocate-Allocates}
use whippet.CopySpace.Alloc.Cycle.{
  Releases, Finishes, allocator_finish-Releases, finish_gc-Finishes,
}
use whippet.CopySpace.PageOut
use whippet.CopySpace.PageOut.{page_out_blocks-Releases}
use whippet.CopySpace.PageIn.{Reacquires, maybe_reacquire_memory-Reacquires}

abbrev flags : Bool → Flags
flags b = record { first = b; second = b }

-- The header at an offset in the first slab.
abbrev a_block : ℕ → Bool → ℕ → Block
a_block addr in_core allocated = record {
  addr = slab_size + addr;
  in_core = in_core;
  all_zeroes = flags (not in_core);
  is_survivor = flags false;
  allocated = allocated;
}

abbrev some_space : Space
some_space = record {
  empty = a_block 512 true 100 ∷ a_block 768 false 0 ∷ [];
  partly_full = a_block 1024 true 65520 ∷ a_block 1280 true 4096 ∷ [];
  full = a_block 1536 true 0 ∷ [];
  allocated_bytes = 135152;
  fragmentation = 0;
  paged_out = record {
    age0 = a_block 1792 true 0 ∷ [];
    age1 = [];
    age2 = a_block 2048 true 0 ∷ [];
    age3 = a_block 2304 false 0 ∷ [];
  };
  bytes_to_page_out = pos 200000;
  active_region = true;
  in_gc = false;
  allocated_bytes_at_last_gc = 0;
  fragmentation_at_last_gc = 0;
}

some_space-IsValid : SpaceIsValid some_space
some_space-IsValid = record {
  partly_full_fits = omega arith;
  paged_out_unused = record {
    unused0 = omega arith;
    unused1 = tt;
    unused2 = omega arith;
    unused3 = omega arith;
  };
}

-- The space's one slab.
abbrev one_slab : Extents
one_slab = record {
  capacity = 1;
  ranges = record { lo_addr = slab_size; hi_addr = 2 * slab_size } ∷ [];
}

abbrev all_logged : Log
all_logged = λ byte bit. true

-- The first partly full block has 16 bytes left and is given up.
allocates_in_second :
    elim (allocate 8192 16 one_slab true all_logged at_rest some_space 40) [
      | none ↦ none
      | some r ↦ r.0.0
    ]
    ≡ some (region_start (slab_size + 1280) true + 4096)
unfolding allocate refill partly_full_loop acquire_partly_full_block release_full_block bump
    align_up align_down region_start
allocates_in_second = refl

-- Its one partly full block has no room, and the region of its first empty one is not zeroed.
abbrev crowded : Space
crowded = record some_space { partly_full = a_block 1024 true 65520 ∷ [] }

crowded-IsValid : SpaceIsValid crowded
crowded-IsValid = record {
  partly_full_fits = omega arith;
  paged_out_unused = some_space-IsValid.paged_out_unused;
}

crowded-UnusedInside : UnusedInside one_slab true crowded.empty crowded.paged_out
unfolding contains_address contain_addr contain_loop region_start block_payload align_down
crowded-UnusedInside = record {
  inside = (refl, (refl, tt));
  inside0 = (refl, tt);
  inside1 = tt;
  inside2 = (refl, tt);
  inside3 = (refl, tt);
}

-- The region's first field was logged, and is so no longer.
clears_region :
    elim (allocate 8192 16 one_slab true all_logged at_rest crowded 40) [
      | none ↦ none
      | some r ↦ some (logged r.1 (region_start (slab_size + 512) true))
    ]
    ≡ some false
unfolding allocate refill partly_full_loop acquire_partly_full_block release_full_block bump
    align_up align_down region_start acquire_empty_block zero_region clear_region contains_address
    contain_addr contain_loop field_logged_byte field_logged_bit obtain_empty_block block_payload
clears_region = refl

allocate-Allocates_example :
    Allocates
      (align_up 40 16)
      all_logged
      at_rest
      crowded
      (allocate 8192 16 one_slab true all_logged at_rest crowded 40)
unfolding align_up align_down
allocate-Allocates_example =
    allocate-Allocates 8192 16 one_slab true all_logged at_rest crowded 40 (omega arith)
      (omega arith) (omega arith) (omega arith) (at_rest-IsValid true) crowded-IsValid
      crowded-UnusedInside

-- Bumped from the 64 bytes that its block had when it was taken.
abbrev bumped_on : Allocator
bumped_on = record {
  hp = region_start (slab_size + 2560) true + 4160;
  limit = region_start (slab_size + 2560) true + region_size;
  block = some (a_block 2560 true 64);
}

bumped_on-IsValid : AllocatorIsValid true bumped_on
bumped_on-IsValid = record { at_rest = λ e. cc; in_block = λ b e. ground arith }

allocator_finish-Releases_example :
    Releases bumped_on some_space (allocator_finish bumped_on some_space)
allocator_finish-Releases_example =
    allocator_finish-Releases bumped_on some_space bumped_on-IsValid some_space-IsValid

finish_gc-Finishes_example : Finishes some_space true (finish_gc some_space true)
finish_gc-Finishes_example = finish_gc-Finishes some_space true some_space-IsValid

page_out_blocks-Releases_example :
    PageOut.Releases some_space (page_out_blocks_until_memory_released some_space)
page_out_blocks-Releases_example = page_out_blocks-Releases some_space some_space-IsValid

maybe_reacquire_memory-Reacquires_example :
    Reacquires
      (record some_space { bytes_to_page_out = pos 200000 -ℤ pos 400000 })
      (maybe_reacquire_memory some_space 400000)
maybe_reacquire_memory-Reacquires_example =
    maybe_reacquire_memory-Reacquires some_space 400000 some_space-IsValid

block_payload-block_for_addr_example :
    (block_payload (block_for_addr 400000) ≡ align_down 400000 block_size)
    × (header_bytes_per_slab ≤ block_for_addr 400000 % slab_size)
    × (block_for_addr 400000 % slab_size < block_size)
    × (align_down (block_for_addr 400000) slab_size ≡ align_down 400000 slab_size)
block_payload-block_for_addr_example = block_payload-block_for_addr 400000 (omega arith)

region_start_lem_example :
    (object_region (region_start 512 true + 100) ≡ tick true)
    × (block_for_addr (region_start 512 true + 100) ≡ 512)
    × (region_start 512 true % region_size ≡ 0)
region_start_lem_example =
    region_start_lem 512 100 true (omega arith) (omega arith) (omega arith) (omega arith)
