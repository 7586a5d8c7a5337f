-- ===== src/CopySpace/Grow/Short.antt =====
-- Growth falls short where the slabs' own headers take what was asked for.
use whippet.Base.{
  ℕ, zero, suc, ◌+◌, ◌-◌, ◌*◌, ◌/◌, ◌≤◌, ◌<◌, ◌≡◌, refl, ◌∙◌, ap, Option, none, some, Bool, true,
  false, arith, ◌⊎◌, inl, inr, ltb→lt, Bool-cases, ◌>>=◌, ◌>>◌, assert,
}
use whippet.Base.Int.{ℤ, pos, neg_part, pos_part, ltb_ℤ, ◌+ℤ◌, ◌-ℤ◌, int_laws, eq_of_parts}
use whippet.CopySpace.Layout.{
  align_up, slab_size, block_size, nonheader_blocks_per_slab, slab_header,
}
use whippet.CopySpace.State.{
  Space, page_out_block, paged_out_count, reacquire_memory, block_list_push,
}
use whippet.CopySpace.Alloc.Valid.{SpaceIsValid}
use whippet.CopySpace.PageOut.{Pages}
use whippet.CopySpace.PageIn.{Reacquires, reacquired_all, maybe_reacquire_memory-Reacquires}
use whippet.CopySpace.Grow.{
  Memory, fresh_block, field_logging_blocks, page_out_slab, page_out_slabs, expand, add_slabs,
}

-- What paging out fresh blocks does to a space.
record Gains (count : ℕ) (s s' : Space) : Type 0 where
  valid : SpaceIsValid s'
  counted : paged_out_count s'.paged_out ≡ paged_out_count s.paged_out + count
  same_pending : s'.bytes_to_page_out ≡ s.bytes_to_page_out

page_out_slab-Gains :
    (base idx n : ℕ) (s : Space) → SpaceIsValid s → Gains n s (page_out_slab base idx n s)
unfolding page_out_slab page_out_block block_list_push
page_out_slab-Gains base idx zero s v = record {
  valid = v;
  counted = omega arith;
  same_pending = refl;
}
page_out_slab-Gains base idx (suc n) s v =
    let p = s.paged_out in
    let b = fresh_block (slab_header base idx) in
    let ih = page_out_slab-Gains base (idx + 1) n (page_out_block s b) record {
      partly_full_fits = v.partly_full_fits;
      paged_out_unused = record {
        unused0 = v.paged_out_unused.unused0;
        unused1 = v.paged_out_unused.unused1;
        unused2 = v.paged_out_unused.unused2;
        unused3 = (refl, v.paged_out_unused.unused3);
      };
    } in
    record { valid = ih.valid; counted = omega (arith, ih.counted); same_pending = ih.same_pending }

page_out_slabs-Gains :
    (first base n : ℕ) (s : Space)
    → SpaceIsValid s
    → Gains (n * (nonheader_blocks_per_slab - first)) s (page_out_slabs first base n s)
unfolding page_out_slabs
page_out_slabs-Gains first base zero s v = record {
  valid = v;
  counted = grind arith;
  same_pending = refl;
}
page_out_slabs-Gains first base (suc n) s v =
    let one = page_out_slab-Gains base first (nonheader_blocks_per_slab - first) s v in
    let rest =
      page_out_slabs-Gains first (base + slab_size) n
        (page_out_slab base first (nonheader_blocks_per_slab - first) s) one.valid in
    record {
      valid = rest.valid;
      counted =
          rest.counted
          ∙ ap (λ t. t + n * (nonheader_blocks_per_slab - first)) one.counted
          ∙ regroup _ _ n;
      same_pending = rest.same_pending ∙ one.same_pending;
    }
  where
    regroup : (a u n : ℕ) → a + u + n * u ≡ a + suc n * u
    regroup a u n = grind arith

-- With less than the bytes wanted behind it, less a block, taking memory back fails its assertion.
reacquire_short :
    (s : Space) (bytes : ℕ)
    → SpaceIsValid s
    → s.bytes_to_page_out ≡ pos 0 -ℤ pos bytes
    → block_size * (paged_out_count s.paged_out + 1) ≤ bytes
    → (out : Option (ℤ × Space))
    → Reacquires (record s { bytes_to_page_out = s.bytes_to_page_out -ℤ pos 0 }) out
    → (out >>= λ r. assert (ltb_ℤ (pos 0) (r.0 +ℤ pos block_size)) >> some r.1) ≡ none
reacquire_short s bytes v e h out (reacquired_all u p left) =
    elim (Bool-cases (ltb_ℤ (pos 0) (u.bytes_to_page_out +ℤ pos block_size))) [
      | inr e' ↦ rw e' refl
      | inl over ↦
          let lt = ltb→lt _ _ over in
          absurd (
            omega (
              int_laws,
              ap pos_part p.pending,
              ap neg_part p.pending,
              ap pos_part e,
              ap neg_part e,
              h,
              lt,
            ))
    ]

neg_part-sub : (n : ℕ) → neg_part (pos 0 -ℤ pos n) ≡ n
unfolding ◌-ℤ◌
neg_part-sub n = ground arith

negative : (n : ℕ) → 0 < n → ltb_ℤ (pos 0 -ℤ pos n) (pos 0) ≡ true
unfolding ◌-ℤ◌
negative n h = ground arith

-- Where nothing is paged out, nothing can be taken back.
nothing_back :
    (s : Space) (bytes : ℕ) (u : Space)
    → s.bytes_to_page_out ≡ pos 0
    → paged_out_count s.paged_out ≡ 0
    → block_size ≤ bytes
    → Pages (record s { bytes_to_page_out = s.bytes_to_page_out -ℤ pos bytes }) u
    → (ltb_ℤ (pos 0) (u.bytes_to_page_out +ℤ pos block_size) ≡ true)
      ⊎ (paged_out_count u.paged_out ≡ 0)
    → (paged_out_count u.paged_out ≡ 0) × (u.bytes_to_page_out ≡ pos 0 -ℤ pos bytes)
nothing_back s bytes u e none_out h p (inl over) =
    let lt = ltb→lt _ _ over in
    absurd (
      omega (
        int_laws,
        ap pos_part p.pending,
        ap neg_part p.pending,
        ap pos_part e,
        ap neg_part e,
        none_out,
        h,
        lt,
      ))
nothing_back s bytes u e none_out h p (inr gone) = (
  gone,
  eq_of_parts _ _ (
      omega (
        int_laws,
        ap pos_part p.pending,
        ap neg_part p.pending,
        ap pos_part e,
        ap neg_part e,
        none_out,
        gone,
      )),
)

none_after :
    (o : Option Memory)
    → (o >>= λ m. ◌>>=◌ {A = Space} {B = Memory × Space} none (λ s. some (m, s))) ≡ none
none_after none = refl
none_after (some m) = refl

abbrev pub slabs_for : ℕ → ℕ
slabs_for bytes = align_up bytes slab_size / slab_size

-- How many blocks some slabs have for objects.
abbrev pub usable : ℕ → Bool → ℕ
usable nslabs has_field_logging_bits =
    nslabs * (nonheader_blocks_per_slab - field_logging_blocks has_field_logging_bits)

reacquire_grown :
    (u : Space) (first base n bytes : ℕ)
    → SpaceIsValid u
    → paged_out_count u.paged_out ≡ 0
    → u.bytes_to_page_out ≡ pos 0 -ℤ pos bytes
    → block_size * (n * (nonheader_blocks_per_slab - first) + 1) ≤ bytes
    → reacquire_memory (page_out_slabs first base n u) 0 ≡ none
unfolding reacquire_memory
reacquire_grown u first base n bytes v none_out e h =
    let g = page_out_slabs-Gains first base n u v in
    let grown = page_out_slabs first base n u in
    reacquire_short grown bytes g.valid (g.same_pending ∙ e) (omega (arith, g.counted, none_out, h))
      _ (maybe_reacquire_memory-Reacquires grown 0 g.valid)

module _ (acquire_slabs : ℕ → ℕ) (has_field_logging_bits : Bool) where
  expand_from :
      (m : Memory) (s : Space) (bytes : ℕ) (out : Option (ℤ × Space))
      → s.bytes_to_page_out ≡ pos 0
      → paged_out_count s.paged_out ≡ 0
      → block_size * (usable (slabs_for bytes) has_field_logging_bits + 1) ≤ bytes
      → Reacquires (record s { bytes_to_page_out = s.bytes_to_page_out -ℤ pos bytes }) out
      → ◌>>=◌ {B = Memory × Space} out (λ r. elim (ltb_ℤ r.0 (pos 0)) [
        | false ↦ some (m, r.1)
        | true ↦
            let n = slabs_for (neg_part r.0) in
            add_slabs m (acquire_slabs n) n >>= λ m'.
            reacquire_memory
              (page_out_slabs (field_logging_blocks has_field_logging_bits) (acquire_slabs n) n r.1)
              0
            >>= λ grown. some (m', grown)
      ])
        ≡ none
  expand_from m s bytes out e none_out h (reacquired_all u p left) =
      let (none_left, e') = nothing_back s bytes u e none_out (omega arith) p left in
      let n = slabs_for bytes in
      let is_negative = ap (λ z. ltb_ℤ z (pos 0)) e' ∙ negative bytes (omega arith) in
      let wanted = ap neg_part e' ∙ neg_part-sub bytes in
      rw
        (
          ◌>>=◌,
          is_negative,
          wanted,
          reacquire_grown u (field_logging_blocks has_field_logging_bits) (acquire_slabs n) n bytes
              p.space_valid none_left e' h,
        )
        (none_after (add_slabs m (acquire_slabs n) n))

  -- Growing a valid space that is not of fixed size, where nothing is paged out and nothing is to be
  -- released, cannot pass its assertions whenever the bytes asked for are at least one block more than
  -- the blocks that the new slabs have for objects: slabs are counted with their headers.
  pub expand-none :
      (m : Memory) (s : Space) (bytes : ℕ)
      → SpaceIsValid s
      → s.bytes_to_page_out ≡ pos 0
      → paged_out_count s.paged_out ≡ 0
      → block_size * (usable (slabs_for bytes) has_field_logging_bits + 1) ≤ bytes
      → expand acquire_slabs false has_field_logging_bits m s bytes ≡ none
  unfolding expand
  expand-none m s bytes v e none_out h =
      expand_from m s bytes _ e none_out h (maybe_reacquire_memory-Reacquires s bytes v)
