-- ===== src/CopySpace/Alloc/Cycle.antt =====
-- The ends of an allocator and of a collection, and the flip that starts one.
use whippet.Base.{
  ℕ, zero, suc, ◌+◌, ◌%◌, ◌≤◌, ◌<◌, ◌≡◌, refl, ap, subst, ◌⊎◌, List, [], ◌∷◌, Option, none, some,
  Bool, true, false, not, if◌then◌else◌, ltb, ◌>>=◌, arith, length, Bool-cases, inl, inr,
}
use whippet.CopySpace.Layout.{region_size, region_start, region_start-aligned}
use whippet.CopySpace.State.{
  Block, Space, set_flag, pop_partly_full_block, push_full_block, push_partly_full_block,
  append_block_lists, flip,
}
use whippet.CopySpace.Alloc.{
  Allocator, acquire_partly_full_block, release_partly_full_block, allocator_finish, close_loop,
  finish_gc, note_gc, set_block,
}
use whippet.CopySpace.Alloc.Valid.{
  SpaceIsValid, AllocatorIsValid, Keeps, Keeps-trans, at_rest, release_full_block-Keeps,
  at_rest-IsValid, header_count, listed, bytes_in,
}
use whippet.CopySpace.Alloc.PartlyFull.{take_partly_full}

Keeps-refl : (s : Space) → SpaceIsValid s → Keeps at_rest s at_rest s
Keeps-refl s v = record {
  conserved = λ x. refl;
  accounted = refl;
  same_region = refl;
  space_valid = v;
  allocator_valid = at_rest-IsValid _;
}

-- A block that fills up during a collection holds survivors.
abbrev pub filled : Space → Block → Block
filled s b =
    if s.in_gc then record b { is_survivor = set_flag b.is_survivor s.active_region true } else b

-- Where the block of an allocator went: onto the partly full ones, with all bytes up to the allocator's
-- pointer, or, where the pointer is at the region's end or has not left its start, onto the full ones.
pub data GivesBack (hp : ℕ) (b : Block) (s s' : Space) : Type 0 where
  partly :
      (allocated : ℕ)
      → 0 < allocated
      → region_start b.addr s.active_region + allocated ≡ hp
      → hp < region_start b.addr s.active_region + region_size
      → s'.partly_full ≡ record b { allocated = allocated } ∷ s.partly_full
      → s'.full ≡ s.full
      → s'.allocated_bytes + b.allocated ≡ s.allocated_bytes + allocated
      → GivesBack hp b s s'
  fully :
      (hp ≡ region_start b.addr s.active_region + region_size)
        ⊎ (hp ≡ region_start b.addr s.active_region)
      → s'.full ≡ filled s b ∷ s.full
      → s'.partly_full ≡ s.partly_full
      → s'.allocated_bytes + b.allocated ≡ s.allocated_bytes + region_size
      → GivesBack hp b s s'

-- An allocator gave its block back, if it had one.
pub data Releases (alloc : Allocator) (s : Space) : Option (Allocator × Space) → Type 0 where
  released :
      (s' : Space)
      → Keeps alloc s at_rest s'
      → ((b : Block) → alloc.block ≡ some b → GivesBack alloc.hp b s s')
      → (alloc.block ≡ none → s' ≡ s)
      → Releases alloc s (some (at_rest, s'))

-- The block that an allocator holds is the one that it gives back.
of_held :
    (hp : ℕ) (b c : Block) (s s' : Space)
    → GivesBack hp b s s'
    → some b ≡ some c
    → GivesBack hp c s s'
of_held hp b c s s' g e =
    subst (λ d. GivesBack hp d s s') (ap (λ o. elim o [ none ↦ b | some d ↦ d ]) e) g

-- The offset of a pointer in a region.
region_offset :
    (start hp : ℕ)
    → start % region_size ≡ 0
    → start ≤ hp
    → hp < start + region_size
    → start + hp % region_size ≡ hp
region_offset start hp aligned le lt = omega arith

region_wraps :
    (start hp : ℕ)
    → start % region_size ≡ 0
    → start ≤ hp
    → hp ≤ start + region_size
    → hp % region_size ≡ 0
    → (hp ≡ start + region_size) ⊎ (hp ≡ start)
region_wraps start hp aligned le le' zero_ = ground arith

release_partly_full_block-Releases :
    (hp limit : ℕ) (b : Block) (s : Space)
    → let alloc : Allocator = record { hp = hp; limit = limit; block = some b } in
      AllocatorIsValid s.active_region alloc
      → SpaceIsValid s
      → Releases alloc s (release_partly_full_block alloc s)
unfolding release_partly_full_block push_full_block push_partly_full_block
release_partly_full_block-Releases hp limit b s av sv =
    let (at_end, start, end) = av.in_block b refl in
    let aligned = region_start-aligned b.addr s.active_region in
    let base = region_start b.addr s.active_region in
    elim (Bool-cases (ltb 0 (hp % region_size))) [
      | inl e ↦
          let some_bytes : 0 < hp % region_size = ground (arith, e) in
          let inside : hp < base + region_size = omega (arith, some_bytes) in
          let offset = region_offset base hp aligned (omega arith) inside in
          rw e (
            Releases.released _
              record {
                conserved = λ x. omega arith;
                accounted = ground arith;
                same_region = refl;
                space_valid = record {
                  partly_full_fits = (omega arith, sv.partly_full_fits);
                  paged_out_unused = sv.paged_out_unused;
                };
                allocator_valid = at_rest-IsValid _;
              }
              (λ c. of_held hp b c s _ (
                GivesBack.partly (hp % region_size) some_bytes offset inside refl refl
                  (omega (arith, offset))))
              (λ n. absurd (cc n)))
      | inr e ↦
          let no_bytes : hp % region_size ≡ 0 = ground (arith, e) in
          rw e (
            Releases.released _
              record {
                conserved = λ x. ground arith;
                accounted = ground arith;
                same_region = ground arith;
                space_valid = ground (arith, sv.partly_full_fits, sv.paged_out_unused);
                allocator_valid = at_rest-IsValid _;
              }
              (λ c. of_held hp b c s _ (
                GivesBack.fully (region_wraps base hp aligned (omega arith) (omega arith) no_bytes)
                  refl refl (omega arith)))
              (λ n. absurd (cc n)))
    ]

finish-cases :
    (hp limit : ℕ) (block : Option Block) (s : Space)
    → let alloc : Allocator = record { hp = hp; limit = limit; block = block } in
      AllocatorIsValid s.active_region alloc
      → SpaceIsValid s
      → Releases alloc s (allocator_finish alloc s)
unfolding allocator_finish
finish-cases hp limit none s av sv =
    let (no_hp, no_limit) = av.at_rest refl in
    rw (no_hp, no_limit) (Releases.released s (Keeps-refl s sv) (λ b e. absurd (cc e)) (λ n. refl))
finish-cases hp limit (some b) s av sv = release_partly_full_block-Releases hp limit b s av sv

-- Finishing an allocator that is valid for a valid space ends with it holding no block, and a space
-- without change where it held none. Its block goes onto the partly full ones, with exactly the bytes up
-- to the allocator's pointer recorded as allocated and those new since it was taken counted; where the
-- pointer is at the region's end, so that its offset wraps to 0, or is still at its start, it goes onto
-- the full ones and counts whole. No block is lost, and the bytes stay accounted for.
pub allocator_finish-Releases :
    (alloc : Allocator) (s : Space)
    → AllocatorIsValid s.active_region alloc
    → SpaceIsValid s
    → Releases alloc s (allocator_finish alloc s)
allocator_finish-Releases alloc s = finish-cases alloc.hp alloc.limit alloc.block s

-- A collection ended: no block is partly full if it was a minor one.
pub data Finishes (s : Space) (is_minor_gc : Bool) : Option Space → Type 0 where
  finished :
      (s' : Space)
      → Keeps at_rest s at_rest s'
      → s'.in_gc ≡ false
      → s'.allocated_bytes_at_last_gc ≡ s'.allocated_bytes
      → s'.fragmentation_at_last_gc ≡ s'.fragmentation
      → (is_minor_gc ≡ true → s'.partly_full ≡ [])
      → Finishes s is_minor_gc (some s')

data Closes (s : Space) : Option Space → Type 0 where
  closed : (s' : Space) → Keeps at_rest s at_rest s' → s'.partly_full ≡ [] → Closes s (some s')

Closes-trans :
    (s t : Space) → Keeps at_rest s at_rest t → (out : Option Space) → Closes t out → Closes s out
Closes-trans s t k out (closed u l none_left) = Closes.closed u (Keeps-trans k l) none_left

close_loop_round :
    (fuel : ℕ) (s : Space) (given_back : Option (Allocator × Space)) (s' : Space)
    → Keeps at_rest s at_rest s'
    → given_back ≡ some (at_rest, s')
    → Closes s' (close_loop fuel s')
    → Closes s (elim given_back [ none ↦ none | some r ↦ close_loop fuel r.1 ])
close_loop_round fuel s given_back s' k e c = rw e (Closes-trans s s' k (close_loop fuel s') c)

close_loop-Closes :
    (fuel : ℕ) (blocks : List Block) (s : Space)
    → length blocks < fuel
    → let before = record s { partly_full = blocks } in
      SpaceIsValid before → Closes before (close_loop fuel before)
unfolding close_loop acquire_partly_full_block pop_partly_full_block set_block
close_loop-Closes zero blocks s h v = absurd (omega arith)
close_loop-Closes (suc fuel) [] s h v = Closes.closed _ (Keeps-refl _ v) refl
close_loop-Closes (suc fuel) (b ∷ rest) s h v =
    let start = region_start b.addr s.active_region in
    let (_, k) = take_partly_full b rest s v in
    let (s', freed, l, same, _, _) =
      release_full_block-Keeps (start + b.allocated) (start + region_size) b
        (record s { partly_full = rest }) k.allocator_valid k.space_valid in
    close_loop_round fuel _ _ s' (Keeps-trans k l) freed
      (close_loop-Closes fuel s'.partly_full s' (rw same (omega arith)) l.space_valid)

finish_gc-minor :
    (s : Space) (out : Option Space)
    → Closes s out
    → Finishes s true (out >>= λ t. some (note_gc t))
finish_gc-minor s out (closed s' k none_left) =
    Finishes.finished _
      record {
        conserved = k.conserved;
        accounted = k.accounted;
        same_region = k.same_region;
        space_valid = record {
          partly_full_fits = k.space_valid.partly_full_fits;
          paged_out_unused = k.space_valid.paged_out_unused;
        };
        allocator_valid = at_rest-IsValid _;
      }
      refl refl refl (λ e. none_left)

-- The end of a collection of a valid space comes within the fuel given: the counts of this collection
-- are noted, no block is lost, the bytes stay accounted for, and after a minor collection no block
-- that holds survivors is open for new objects.
pub finish_gc-Finishes :
    (s : Space) (is_minor_gc : Bool)
    → SpaceIsValid s
    → Finishes s is_minor_gc (finish_gc s is_minor_gc)
unfolding finish_gc
finish_gc-Finishes s true v =
    finish_gc-minor s _
      (close_loop-Closes (suc (length s.partly_full)) s.partly_full s (omega arith) v)
finish_gc-Finishes s false v =
    Finishes.finished _
      record {
        conserved = λ x. refl;
        accounted = refl;
        same_region = refl;
        space_valid = record {
          partly_full_fits = v.partly_full_fits;
          paged_out_unused = v.paged_out_unused;
        };
        allocator_valid = at_rest-IsValid _;
      }
      refl refl refl (λ e. cc)

header_count-append :
    (x : ℕ) (a b : List Block)
    → header_count x (append_block_lists a b) ≡ header_count x a + header_count x b
unfolding append_block_lists
header_count-append x [] b = omega arith
header_count-append x (c ∷ a) b = omega (arith, header_count-append x a b)

-- A flip keeps every block of a valid space and makes all that are in core empty, counts no allocated
-- byte, as is right with no block in use, and turns to the other region.
pub flip-listed :
    (s : Space)
    → SpaceIsValid s
    → let s' = flip s in
      ((x : ℕ) → listed x s' ≡ listed x s)
      × (s'.allocated_bytes ≡ bytes_in s')
      × (s'.active_region ≡ not s.active_region)
      × (s'.in_gc ≡ true)
      × SpaceIsValid s'
unfolding flip
flip-listed s v = (
  λ x. omega (
    arith,
    header_count-append x s.empty (append_block_lists s.partly_full s.full),
    header_count-append x s.partly_full s.full,
  ),
  omega arith,
  refl,
  refl,
  record { partly_full_fits = tt; paged_out_unused = v.paged_out_unused },
)
