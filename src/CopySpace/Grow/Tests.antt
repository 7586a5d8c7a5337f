-- ===== src/CopySpace/Grow/Tests.antt =====
-- A growth by one slab, which falls short by a block.
use whippet.Base.{ℕ, ◌≡◌, refl, [], none, false, arith}
use whippet.Base.Int.{pos}
use whippet.Extents as E
use whippet.CopySpace.Layout.{slab_size, align_up, align_down}
use whippet.CopySpace.State.{Space}
use whippet.CopySpace.Alloc.Valid.{SpaceIsValid}
use whippet.CopySpace.Grow.{Memory, expand, field_logging_blocks}
use whippet.CopySpace.Grow.Short.{expand-none}

abbrev new_space : Space
new_space = record {
  empty = [];
  partly_full = [];
  full = [];
  allocated_bytes = 0;
  fragmentation = 0;
  paged_out = record { age0 = []; age1 = []; age2 = []; age3 = [] };
  bytes_to_page_out = pos 0;
  active_region = false;
  in_gc = false;
  allocated_bytes_at_last_gc = 0;
  fragmentation_at_last_gc = 0;
}

new_space-IsValid : SpaceIsValid new_space
new_space-IsValid = record {
  partly_full_fits = tt;
  paged_out_unused = record { unused0 = tt; unused1 = tt; unused2 = tt; unused3 = tt };
}

abbrev no_memory : Memory
no_memory = record { extents = E.allocate 10; slabs = [] }

abbrev one_slab : ℕ → ℕ
one_slab n = slab_size

expand-none_example : expand one_slab false false no_memory new_space slab_size ≡ none
unfolding align_up align_down field_logging_blocks
expand-none_example =
    expand-none one_slab false no_memory new_space slab_size new_space-IsValid refl (omega arith)
      (omega arith)
