-- ===== src/CopySpace/Init/Fresh.antt =====
-- A new space holds every block of its slabs once, empty or paged out, and all of them unused.
use whippet.Base.{
  ℕ, zero, suc, ◌+◌, ◌-◌, ◌*◌, ◌/◌, ◌≡◌, refl, ◌∙◌, ap, [], Option, none, some, Bool, true, false,
  arith, ltb, ◌==◌, length, All, Bool-cases, inl, inr, ◌>>=◌, lt→ltb,
}
use whippet.Extents as E
use whippet.CopySpace.Layout.{
  align_up, slab_size, block_size, nonheader_blocks_per_slab, slab_header,
}
use whippet.CopySpace.State.{Space, page_out_block, push_empty_block, block_list_push}
use whippet.CopySpace.Alloc.Valid.{SpaceIsValid, bytes_in}
use whippet.CopySpace.PageIn.{IsDiscarded}
use whippet.CopySpace.Grow.{Memory, field_logging_blocks, add_slabs}
use whippet.CopySpace.Init.{init_block, init_slab, init_slabs, new_space, init, allocate_slabs}

-- How many blocks a space without objects has.
abbrev pub blocks : Space → ℕ
blocks s = length s.empty + length s.paged_out.age3

-- A space whose blocks were never used.
pub record IsFresh (s : Space) : Type 0 where
  pub valid : SpaceIsValid s
  pub accounted : s.allocated_bytes ≡ bytes_in s
  pub no_objects : (s.partly_full ≡ []) × (s.full ≡ [])
  pub none_ages : (s.paged_out.age0 ≡ []) × (s.paged_out.age1 ≡ []) × (s.paged_out.age2 ≡ [])
  pub empty_zero : All IsDiscarded s.empty
  pub paged_out_zero : All IsDiscarded s.paged_out.age3

init_block-IsFresh :
    (size addr reserved : ℕ) (s : Space)
    → IsFresh s
    → let s' = (init_block size addr (reserved, s)).1 in IsFresh s' × (blocks s' ≡ blocks s + 1)
unfolding init_block page_out_block push_empty_block block_list_push
init_block-IsFresh size addr reserved s f = elim (Bool-cases (ltb size reserved)) [
  | inl e ↦
      rw (init_block, e)
        (
          record {
            valid = record {
              partly_full_fits = f.valid.partly_full_fits;
              paged_out_unused = record {
                unused0 = f.valid.paged_out_unused.unused0;
                unused1 = f.valid.paged_out_unused.unused1;
                unused2 = f.valid.paged_out_unused.unused2;
                unused3 = (refl, f.valid.paged_out_unused.unused3);
              };
            };
            accounted = f.accounted;
            no_objects = f.no_objects;
            none_ages = f.none_ages;
            empty_zero = f.empty_zero;
            paged_out_zero = ((refl, refl, refl), f.paged_out_zero);
          },
          omega arith,
        )
  | inr e ↦
      rw (init_block, e)
        (
          record {
            valid = record {
              partly_full_fits = f.valid.partly_full_fits;
              paged_out_unused = f.valid.paged_out_unused;
            };
            accounted = f.accounted;
            no_objects = f.no_objects;
            none_ages = f.none_ages;
            empty_zero = ((refl, refl, refl), f.empty_zero);
            paged_out_zero = f.paged_out_zero;
          },
          omega arith,
        )
]

init_slab-IsFresh :
    (size base idx n : ℕ) (r : ℕ × Space)
    → IsFresh r.1
    → let s' = (init_slab size base idx n r).1 in IsFresh s' × (blocks s' ≡ blocks r.1 + n)
unfolding init_slab
init_slab-IsFresh size base idx zero r f = (f, omega arith)
init_slab-IsFresh size base idx (suc n) r f =
    let (f', e) = init_block-IsFresh size (slab_header base idx) r.0 r.1 f in
    let (f'', e') =
      init_slab-IsFresh size base (idx + 1) n (init_block size (slab_header base idx) r) f' in
    (f'', omega (arith, e, e'))

init_slabs-IsFresh :
    (size first base n : ℕ) (r : ℕ × Space)
    → IsFresh r.1
    → let s' = (init_slabs size first base n r).1 in
      IsFresh s' × (blocks s' ≡ blocks r.1 + n * (nonheader_blocks_per_slab - first))
unfolding init_slabs
init_slabs-IsFresh size first base zero r f = (f, grind arith)
init_slabs-IsFresh size first base (suc n) r f =
    let per_slab = nonheader_blocks_per_slab - first in
    let (f', e) = init_slab-IsFresh size base first per_slab r f in
    let (f'', e') =
      init_slabs-IsFresh size first (base + slab_size) n (init_slab size base first per_slab r)
        f' in
    (f'', e' ∙ ap (λ t. t + n * per_slab) e ∙ regroup (blocks r.1) per_slab n)
  where
    regroup : (a u n : ℕ) → a + u + n * u ≡ a + suc n * u
    regroup a u n = grind arith

new_space-IsFresh : IsFresh new_space
new_space-IsFresh = record {
  valid = record {
    partly_full_fits = tt;
    paged_out_unused = record { unused0 = tt; unused1 = tt; unused2 = tt; unused3 = tt };
  };
  accounted = refl;
  no_objects = (refl, refl);
  none_ages = (refl, refl, refl);
  empty_zero = tt;
  paged_out_zero = tt;
}

-- The slabs of a space of so many bytes, with those reserved against fragmentation.
abbrev pub slabs_for : ℕ → ℕ
slabs_for size = align_up (align_up size block_size + block_size * 16) slab_size / slab_size

-- What making a space of `size` bytes answered.
pub data Makes (size : ℕ) (has_field_logging_bits : Bool)
    : Option (Option (Memory × Space)) → Type 0 where
  made :
      (m : Memory) (s : Space)
      → IsFresh s
      → blocks s
        ≡ slabs_for size * (nonheader_blocks_per_slab - field_logging_blocks has_field_logging_bits)
      → Makes size has_field_logging_bits (some (some (m, s)))
  no_memory : Makes size has_field_logging_bits (some none)

init-at :
    (slabs size reserved : ℕ) (has_field_logging_bits : Bool)
    → let first = field_logging_blocks has_field_logging_bits in
      let n = slabs_for size in
      Makes size has_field_logging_bits (elim (slabs == 0) [
        | true ↦ some none
        | false ↦ add_slabs (record { extents = E.allocate 10; slabs = [] }) slabs n >>= λ m. some (
            some (m, (init_slabs (align_up size block_size) first slabs n (reserved, new_space)).1))
      ])
unfolding add_slabs E.adjoin
init-at slabs size reserved has_field_logging_bits =
    let n = slabs_for size in
    let first = field_logging_blocks has_field_logging_bits in
    let (fresh, count) =
      init_slabs-IsFresh (align_up size block_size) first slabs n (reserved, new_space)
        new_space-IsFresh in
    elim (Bool-cases (slabs == 0)) [
      | inl e ↦ rw e Makes.no_memory
      | inr e ↦
          rw (e, add_slabs, lt→ltb 0 slabs (ground arith))
            (Makes.made _ _ fresh (count ∙ zero_add (n * (nonheader_blocks_per_slab - first))))
    ]
  where
    zero_add : (n : ℕ) → 0 + 0 + n ≡ n
    zero_add n = omega arith

-- Making a space that need not be aligned to its size passes all assertions, whatever memory the platform
-- grants. Without memory it answers 0; else each block of the slabs that is not of a header or of
-- logging bits is in the space once, empty or paged out, zeroed and out of core, and the space is valid.
pub init-Makes :
    (acquire_memory : ℕ → ℕ → ℕ) (size : ℕ) (has_field_logging_bits : Bool)
    → Makes size has_field_logging_bits (init acquire_memory size false has_field_logging_bits)
unfolding init allocate_slabs
init-Makes acquire_memory size has_field_logging_bits =
    init-at (acquire_memory (slabs_for size * slab_size) slab_size) size
      (align_up (align_up size block_size + block_size * 16) slab_size) has_field_logging_bits
