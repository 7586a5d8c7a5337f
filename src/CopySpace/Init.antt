-- ===== src/CopySpace/Init.antt =====
-- src/copy-space.h: the first slabs of a space, and its blocks, some of them paged out from the start.
pub mod Fresh
mod Tests
use whippet.Base.{
  ℕ, zero, suc, ◌+◌, ◌-◌, ◌*◌, ◌/◌, ◌^◌, List, [], ◌∷◌, Option, none, some, Bool, true, false,
  if◌then◌else◌, ltb, ◌==◌, ◌>>=◌, ◌>>◌, assert,
}
use whippet.Base.Int.{pos}
use whippet.Base.Word.{sub_word}
use whippet.Extents as E
use whippet.CopySpace.Layout.{
  align_up, slab_size, block_size, slab_header, nonheader_blocks_per_slab,
}
use whippet.CopySpace.State.{Space, page_out_block, push_empty_block}
use whippet.CopySpace.Grow.{Memory, field_logging_blocks, fresh_block, add_slabs}

-- The bits of `n`, which is 64 less `__builtin_clzll`; `k` goes up from 0, with fuel for 64 bits.
unfoldable pub bit_length : ℕ → ℕ → ℕ → ℕ
bit_length zero k n = k
bit_length (suc fuel) k n =
    let more = bit_length fuel (k + 1) n in if ltb n (2 ^ k) then k else more

unfoldable pub is_power_of_two : ℕ → Bool
unfolding bit_length
is_power_of_two n = n == 2 ^ (bit_length 64 0 n - 1)

unfoldable pub round_up_power_of_two : ℕ → ℕ
unfolding is_power_of_two
round_up_power_of_two n = if is_power_of_two n then n else 2 ^ bit_length 64 0 n

-- `acquire_memory` is the platform's, with the size and the alignment; 0 is a null pointer.
unfoldable pub allocate_slabs : (ℕ → ℕ → ℕ) → ℕ → Bool → Option ℕ
unfolding is_power_of_two
allocate_slabs acquire_memory nslabs aligned =
    let size = nslabs * slab_size in
    if aligned
    then (do assert (is_power_of_two size); some (acquire_memory size size))
    else some (acquire_memory size slab_size)

-- One block, while `reserved` bytes are left to place.
unfoldable pub init_block : ℕ → ℕ → ℕ × Space → ℕ × Space
unfolding page_out_block push_empty_block
init_block size addr (reserved, s) =
    if ltb size reserved
    then (sub_word reserved block_size, page_out_block s (fresh_block addr))
    else (reserved, push_empty_block s (fresh_block addr))

unfoldable pub init_slab : ℕ → ℕ → ℕ → ℕ → ℕ × Space → ℕ × Space
unfolding init_block
init_slab size base idx zero r = r
init_slab size base idx (suc n) r =
    init_slab size base (idx + 1) n (init_block size (slab_header base idx) r)

unfoldable pub init_slabs : ℕ → ℕ → ℕ → ℕ → ℕ × Space → ℕ × Space
unfolding init_slab
init_slabs size first base zero r = r
init_slabs size first base (suc nslabs) r =
    init_slabs size first (base + slab_size) nslabs
      (init_slab size base first (nonheader_blocks_per_slab - first) r)

-- The collector's record is zero where nothing is stored.
abbrev pub new_space : Space
new_space = record {
  empty = [];
  partly_full = [];
  full = [];
  allocated_bytes = 0;
  fragmentation = 0;
  paged_out = record { age0 = []; age1 = []; age2 = []; age3 = [] };
  bytes_to_page_out = pos 0;
  active_region = false;
  in_gc = false;
  allocated_bytes_at_last_gc = 0;
  fragmentation_at_last_gc = 0;
}

-- `none` inside is the answer 0.
unfoldable pub init : (ℕ → ℕ → ℕ) → ℕ → Bool → Bool → Option (Option (Memory × Space))
unfolding align_up round_up_power_of_two allocate_slabs init_slabs add_slabs field_logging_blocks
init acquire_memory size aligned has_field_logging_bits = do
  let size' = align_up size block_size
  let extra = align_up (size' + block_size * 16) slab_size
  let reserved = if aligned then round_up_power_of_two extra else extra
  let nslabs = reserved / slab_size
  slabs ← allocate_slabs acquire_memory nslabs aligned
  elim (slabs == 0) [
    | true ↦ some none
    | false ↦ do
      let extents = E.allocate (if aligned then 1 else 10)
      m ← add_slabs (record { extents = extents; slabs = [] }) slabs nslabs
      let placed =
          init_slabs size' (field_logging_blocks has_field_logging_bits) slabs nslabs
            (reserved, new_space)
      some (some (m, placed.1))
  ]
