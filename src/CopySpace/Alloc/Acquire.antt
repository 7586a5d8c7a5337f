-- ===== src/CopySpace/Alloc/Acquire.antt =====
-- What an allocator acquires: an empty block, whose region is zeroed.
use whippet.Base.{◌+◌, ◌≡◌, refl, subst, sym, Option, none, some, Bool, ◌>>=◌, Bool-cases, inl, inr}
use whippet.Extents.{Extents}
use whippet.CopySpace.Layout.{region_size, region_start, region_start-aligned}
use whippet.CopySpace.Logging.{Log}
use whippet.CopySpace.Logging.Fields.{LogKept, clear_region-LogKept}
use whippet.CopySpace.State.{Block, Space, flag}
use whippet.CopySpace.Alloc.{Allocator, acquire_empty_block, use_block, set_block, zero_region}
use whippet.CopySpace.Alloc.Valid.{SpaceIsValid, Keeps, at_rest}
use whippet.CopySpace.Alloc.Obtain.{RegionInside, UnusedInside, Obtains, obtain_empty_block-cases}

module _ (extents : Extents) where
  -- Where the region in use is in the space, zeroing it passes the assertions.
  zero_region-LogKept :
      (has_field_logging_bits : Bool) (log : Log) (b : Block) (region : Bool)
      → RegionInside extents region b
      → (log' : Log) × (zero_region extents has_field_logging_bits log b region ≡ some log')
        × LogKept (region_start b.addr region) log log'
  unfolding zero_region
  zero_region-LogKept has_field_logging_bits log b region h =
      elim (Bool-cases (flag b.all_zeroes region)) [
        | inl e ↦ (log, rw e refl, λ f outside. refl)
        | inr e ↦
            let aligned = region_start-aligned b.addr region in
            rw e (
              clear_region-LogKept extents has_field_logging_bits log (region_start b.addr region)
                aligned h)
      ]

  -- What acquiring an empty block did: it took one whole region, outside of which no logged field
  -- changed, or there was none to take.
  pub data AcquiresEmpty (log : Log) (s : Space)
      : Option ((Option Allocator × Space) × Log) → Type 0 where
    acquired :
        (alloc : Allocator) (b : Block) (s' : Space) (log' : Log)
        → Keeps at_rest s alloc s'
        → alloc.hp + region_size ≡ alloc.limit
        → alloc.block ≡ some b
        → LogKept (region_start b.addr s'.active_region) log log'
        → AcquiresEmpty log s (some ((some alloc, s'), log'))
    nothing :
        (s' : Space) → Keeps at_rest s at_rest s' → AcquiresEmpty log s (some ((none, s'), log))

  acquire_obtained :
      (has_field_logging_bits : Bool) (log : Log) (s : Space)
      → (obtained : Option (Option Block × Space)) → Obtains extents s obtained
      → AcquiresEmpty log s (
          obtained >>= λ r. elim r.0 [
            | none ↦ some ((none, r.1), log)
            | some b ↦ zero_region extents has_field_logging_bits log b s.active_region >>= λ log'.
                some ((some (set_block (use_block b s.active_region) s.active_region), r.1), log')
          ])
  unfolding set_block
  acquire_obtained has_field_logging_bits log s obtained (Obtains.taken b s' k h) =
      let (log', e, kept) = zero_region-LogKept has_field_logging_bits log b s.active_region h in
      rw e (
        AcquiresEmpty.acquired _ _ s' log' k refl refl
          (subst (λ (r : Bool). LogKept (region_start b.addr r) log log') (sym k.same_region) kept))
  acquire_obtained has_field_logging_bits log s obtained (Obtains.refused s' k) =
      AcquiresEmpty.nothing s' k

  pub acquire_empty_block-AcquiresEmpty :
      (has_field_logging_bits : Bool) (log : Log) (s : Space)
      → SpaceIsValid s
      → UnusedInside extents s.active_region s.empty s.paged_out
      → AcquiresEmpty log s (acquire_empty_block extents has_field_logging_bits log s)
  unfolding acquire_empty_block
  acquire_empty_block-AcquiresEmpty has_field_logging_bits log s v h =
      acquire_obtained has_field_logging_bits log s _
        (obtain_empty_block-cases extents s.empty s.in_gc s v h)
