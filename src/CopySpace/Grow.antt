-- ===== src/CopySpace/Grow.antt =====
-- src/copy-space.h: growing the space by slabs of fresh blocks.
pub mod Short
mod Tests
use whippet.Base.{
  ℕ, zero, suc, ◌+◌, ◌-◌, ◌*◌, ◌/◌, List, [], ◌∷◌, ◌++◌, Option, none, some, Bool, true, false,
  if◌then◌else◌, not, ◌>>=◌, ◌>>◌, assert,
}
use whippet.Base.Int.{ℤ, pos, neg_part, ltb_ℤ}
use whippet.Extents as E
use whippet.Extents.{Extents}
use whippet.CopySpace.Layout.{
  align_up, slab_size, block_size, slab_header, nonheader_blocks_per_slab,
}
use whippet.CopySpace.State.{Block, Space, page_out_block, maybe_reacquire_memory, reacquire_memory}

-- Where the space's memory is; `slabs` are the slabs' addresses.
pub record Memory : Type 0 where
  pub extents : Extents
  pub slabs : List ℕ

unfoldable pub field_logging_blocks : Bool → ℕ
unfolding align_up
field_logging_blocks has_field_logging_bits =
    if has_field_logging_bits then align_up (slab_size / 8 / 8) block_size / block_size else 0

-- The header of a block in fresh memory, which is zero but for what the loop sets.
abbrev pub fresh_block : ℕ → Block
fresh_block addr = record {
  addr = addr;
  in_core = false;
  all_zeroes = record { first = true; second = true };
  is_survivor = record { first = false; second = false };
  allocated = 0;
}

-- `n` blocks of the slab from `idx` on.
unfoldable pub page_out_slab : ℕ → ℕ → ℕ → Space → Space
unfolding page_out_block
page_out_slab base idx zero s = s
page_out_slab base idx (suc n) s =
    page_out_slab base (idx + 1) n (page_out_block s (fresh_block (slab_header base idx)))

unfoldable pub page_out_slabs : ℕ → ℕ → ℕ → Space → Space
unfolding page_out_slab
page_out_slabs first base zero s = s
page_out_slabs first base (suc nslabs) s =
    page_out_slabs first (base + slab_size) nslabs
      (page_out_slab base first (nonheader_blocks_per_slab - first) s)

unfoldable pub slab_addresses : ℕ → ℕ → List ℕ
slab_addresses base zero = []
slab_addresses base (suc n) = base ∷ slab_addresses (base + slab_size) n

unfoldable pub add_slabs : Memory → ℕ → ℕ → Option Memory
unfolding slab_addresses E.adjoin
add_slabs m slabs nslabs = do
  extents ← E.adjoin m.extents slabs (nslabs * slab_size)
  some (record { extents = extents; slabs = m.slabs ++ slab_addresses slabs nslabs })

-- The slabs that the platform grants, as many as asked for, are `acquire_slabs`; a null pointer that it
-- answers is not tested for.
module _ (acquire_slabs : ℕ → ℕ) (fixed_size has_field_logging_bits : Bool) where
  unfoldable pub expand : Memory → Space → ℕ → Option (Memory × Space)
  unfolding page_out_slabs add_slabs field_logging_blocks maybe_reacquire_memory reacquire_memory
      align_up
  expand m s bytes = do
    assert (not fixed_size)
    (pending, s') ← maybe_reacquire_memory s bytes
    elim (ltb_ℤ pending (pos 0)) [
      | false ↦ some (m, s')
      | true ↦ do
        let reserved = align_up (neg_part pending) slab_size
        let nslabs = reserved / slab_size
        let slabs = acquire_slabs nslabs
        m' ← add_slabs m slabs nslabs
        let grown = page_out_slabs (field_logging_blocks has_field_logging_bits) slabs nslabs s'
        s'' ← reacquire_memory grown 0
        some (m', s'')
    ]
