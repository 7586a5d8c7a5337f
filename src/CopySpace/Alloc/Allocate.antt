-- ===== src/CopySpace/Alloc/Allocate.antt =====
-- Allocation: it succeeds or refuses within the fuel given, in the room that the answer promises.
use whippet.Base.{
  ℕ, suc, ◌+◌, ◌≤◌, ◌<◌, ◌≡◌, refl, Option, none, some, Bool, false, leb, arith, ◌>>=◌, Bool-cases,
  inl, inr, length, lt→ltb, le→leb,
}
use whippet.Extents.{Extents}
use whippet.CopySpace.Layout.{region_size, region_start, align_down, align_up}
use whippet.CopySpace.Logging.{Log}
use whippet.CopySpace.Logging.Fields.{LogKept}
use whippet.CopySpace.State.{Block, Space}
use whippet.CopySpace.Alloc.{
  Allocator, Found, acquire_empty_block, allocate, bump, refill, room, exhausted, allocator_init,
}
use whippet.CopySpace.Alloc.Valid.{
  SpaceIsValid, AllocatorIsValid, Keeps, Keeps-trans, at_rest, release_full_block-Keeps,
}
use whippet.CopySpace.Alloc.PartlyFull.{SameUnused, Finds, partly_full_loop-Finds}
use whippet.CopySpace.Alloc.Obtain.{UnusedInside}
use whippet.CopySpace.Alloc.Acquire.{AcquiresEmpty, acquire_empty_block-AcquiresEmpty}

-- What an allocation of `size` bytes did to the allocator and the space, given its answer.
pub record Grants (size : ℕ) (alloc : Allocator) (addr : ℕ) (alloc' : Allocator) (s' : Space)
    : Type 0 where
  pub block : Block
  pub held : alloc'.block ≡ some block
  pub starts : region_start block.addr s'.active_region ≤ addr
  pub bumped : addr + size ≡ alloc'.hp
  pub ends : alloc'.hp ≤ region_start block.addr s'.active_region + region_size

-- An allocation ran to its end: it granted the bytes, and no logged field outside the region that they
-- are in changed; or it refused them with the allocator at rest.
pub data Allocates (size : ℕ) (log : Log) (alloc : Allocator) (s : Space)
    : Option ((Option ℕ × Allocator × Space) × Log) → Type 0 where
  granted :
      (addr : ℕ) (alloc' : Allocator) (s' : Space) (log' : Log)
      → Keeps alloc s alloc' s'
      → (g : Grants size alloc addr alloc' s')
      → LogKept (region_start g.block.addr s'.active_region) log log'
      → Allocates size log alloc s (some ((some addr, alloc', s'), log'))
  refused :
      (s' : Space)
      → Keeps alloc s at_rest s'
      → Allocates size log alloc s (some ((none, at_rest, s'), log))

Allocates-trans :
    {a b : Allocator} {s t : Space} {size : ℕ} {log : Log}
    {out : Option ((Option ℕ × Allocator × Space) × Log)}
    → Keeps a s b t
    → Allocates size log b t out
    → Allocates size log a s out
Allocates-trans k (granted addr alloc' s' log' l g kept) =
    Allocates.granted addr alloc' s' log' (Keeps-trans k l)
      record { block = g.block; held = g.held; starts = g.starts; bumped = g.bumped; ends = g.ends }
      kept
Allocates-trans k (refused s' l) = Allocates.refused s' (Keeps-trans k l)

-- Bumping where there is room.
bump-Allocates :
    (alloc : Allocator) (b : Block) (s : Space) (size : ℕ) (log log' : Log)
    → alloc.block ≡ some b
    → AllocatorIsValid s.active_region alloc
    → SpaceIsValid s
    → alloc.hp + size ≤ alloc.limit
    → LogKept (region_start b.addr s.active_region) log log'
    → Allocates size log alloc s (some (bump alloc s size, log'))
unfolding bump
bump-Allocates alloc b s size log log' e av sv fits kept =
    let (limit, start, end) = av.in_block b e in
    Allocates.granted _ _ _ log'
      record {
        conserved = λ x. ground arith;
        accounted = ground arith;
        same_region = refl;
        space_valid = sv;
        allocator_valid = record {
          at_rest = λ n. cc;
          in_block = λ c q. let (l, h, m) = av.in_block c q in omega arith;
        };
      }
      record { block = b; held = e; starts = omega arith; bumped = refl; ends = omega arith } kept

same_log : (base : ℕ) (log : Log) → LogKept base log log
same_log base log e outside = refl

module _ (extents : Extents) (has_field_logging_bits : Bool) (log : Log) where
  refill_empty :
      (s s' : Space) (size : ℕ)
      → size ≤ region_size
      → Keeps at_rest s at_rest s'
      → (out : Option ((Option Allocator × Space) × Log)) → AcquiresEmpty extents log s' out
      → Allocates size log at_rest s (
          out >>= λ r. elim r.0.0 [
            | none ↦ some ((none, allocator_init, r.0.1), r.1)
            | some alloc ↦ some (bump alloc r.0.1 size, r.1)
          ])
  unfolding allocator_init
  refill_empty s s' size h k out (AcquiresEmpty.acquired alloc b s'' log' l whole e kept) =
      Allocates-trans (Keeps-trans k l) (
        bump-Allocates alloc b s'' size log log' e l.allocator_valid l.space_valid
          (omega (arith, whole)) kept)
  refill_empty s s' size h k out (AcquiresEmpty.nothing s'' l) =
      Allocates.refused s'' (Keeps-trans k l)

  refill_found :
      (s : Space) (size : ℕ) (out : Option Found)
      → size ≤ region_size
      → UnusedInside extents s.active_region s.empty s.paged_out
      → Finds s size out
      → Allocates size log at_rest s (
          out >>= λ f. elim f [
            | room alloc s' ↦ some (bump alloc s' size, log)
            | exhausted s' ↦ do
              ((acquired, s''), log') ← acquire_empty_block extents has_field_logging_bits log s'
              elim acquired [
                | none ↦ some ((none, allocator_init, s''), log')
                | some alloc ↦ some (bump alloc s'' size, log')
              ]
          ])
  refill_found s size out h inside (Finds.found alloc s' k fits (b, e)) = Allocates-trans k (
      bump-Allocates alloc b s' size log log e k.allocator_valid k.space_valid fits
        (same_log _ log))
  refill_found s size out h inside (Finds.gave_up s' k (e, p)) =
      refill_empty s s' size h k (acquire_empty_block extents has_field_logging_bits log s') (
        acquire_empty_block-AcquiresEmpty extents has_field_logging_bits log s' k.space_valid
          (rw (k.same_region, e, p) inside))

  refill-Allocates :
      (s : Space) (size : ℕ)
      → size ≤ region_size
      → SpaceIsValid s
      → UnusedInside extents s.active_region s.empty s.paged_out
      → Allocates size log at_rest s (refill extents has_field_logging_bits log s size)
  unfolding refill
  refill-Allocates s size h v inside =
      refill_found s size _ h inside
        (partly_full_loop-Finds (suc (length s.partly_full)) s.partly_full s size (omega arith) v)

  refill_after_release :
      (alloc : Allocator) (s : Space) (size : ℕ)
      → size ≤ region_size
      → UnusedInside extents s.active_region s.empty s.paged_out
      → (released : Option (Allocator × Space)) (s' : Space) → released ≡ some (at_rest, s')
      → Keeps alloc s at_rest s'
      → SameUnused s s'
      → Allocates size log alloc s
          (released >>= λ r. refill extents has_field_logging_bits log r.1 size)
  refill_after_release alloc s size h inside released s' e k (f, p) = rw e (
      Allocates-trans k
        (refill-Allocates s' size h k.space_valid (rw (k.same_region, f, p) inside)))

lt-align_up : (size granule : ℕ) → 0 < granule → 0 < size → 0 < align_up size granule
unfolding align_up align_down
lt-align_up size granule h k = grind arith

module _ (large_threshold granule : ℕ) (extents : Extents) (has_field_logging_bits : Bool) where
  allocate-cases :
      (log : Log) (hp limit : ℕ) (block : Option Block) (s : Space) (size : ℕ)
      → let alloc : Allocator = record { hp = hp; limit = limit; block = block } in
        0 < granule
        → 0 < size
        → size ≤ large_threshold
        → align_up size granule ≤ region_size
        → AllocatorIsValid s.active_region alloc
        → SpaceIsValid s
        → UnusedInside extents s.active_region s.empty s.paged_out
        → Allocates
            (align_up size granule)
            log
            alloc
            s
            (allocate large_threshold granule extents has_field_logging_bits log alloc s size)
  unfolding allocate
  allocate-cases log hp limit none s size h0 h1 h2 h3 av sv inside =
      let (no_hp, no_limit) = av.at_rest refl in
      let more = lt-align_up size granule h0 h1 in
      let full : leb (hp + align_up size granule) limit ≡ false = ground arith in
      rw (lt→ltb _ _ h1, le→leb _ _ h2, full, no_hp, no_limit)
        (refill-Allocates extents has_field_logging_bits log s (align_up size granule) h3 sv inside)
  allocate-cases log hp limit (some b) s size h0 h1 h2 h3 av sv inside =
      elim (Bool-cases (leb (hp + align_up size granule) limit)) [
        | inl e ↦
            rw (lt→ltb _ _ h1, le→leb _ _ h2, e)
              (bump-Allocates _ b s (align_up size granule) log log refl av sv (ground arith)
                (same_log _ log))
        | inr e ↦
            let (s', freed, k, same, empties, paged) =
              release_full_block-Keeps hp limit b s av sv in
            rw (lt→ltb _ _ h1, le→leb _ _ h2, e)
              (refill_after_release extents has_field_logging_bits log _ s (align_up size granule)
                h3 inside _ s' freed k (empties, paged))
      ]

  -- In a valid space whose extents contain the regions in use of its blocks without objects, an
  -- allocator that is valid for the active region ends every allocation of a size from 1 to the large
  -- threshold whose granules fit a region, within the fuel given and with no assertion failed. It
  -- either grants exactly the granules asked for, just below its new pointer and inside the active
  -- region of the block that it then holds, outside of which no logged field changes, or it refuses,
  -- and is left with no block and the logged fields as they were. Either way no block is lost or
  -- doubled, the allocated bytes stay accounted for, and space and allocator stay valid.
  pub allocate-Allocates :
      (log : Log) (alloc : Allocator) (s : Space) (size : ℕ)
      → 0 < granule
      → 0 < size
      → size ≤ large_threshold
      → align_up size granule ≤ region_size
      → AllocatorIsValid s.active_region alloc
      → SpaceIsValid s
      → UnusedInside extents s.active_region s.empty s.paged_out
      → Allocates
          (align_up size granule)
          log
          alloc
          s
          (allocate large_threshold granule extents has_field_logging_bits log alloc s size)
  allocate-Allocates log alloc s size = allocate-cases log alloc.hp alloc.limit alloc.block s size
