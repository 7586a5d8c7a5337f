-- ===== src/CopySpace/PageOut.antt =====
-- Paging out and in: the bytes still to release, and the unmapping of blocks that have aged.
use whippet.Base.{
  ℕ, zero, suc, ◌*◌, ◌<◌, ◌≡◌, refl, List, [], ◌∷◌, Option, some, false, arith, length, ◌⊎◌, inl,
  inr, Bool-cases,
}
use whippet.Base.Int.{ℤ, pos, ◌+ℤ◌, ◌-ℤ◌, ◌≤ℤ◌, ltb_ℤ, int_laws}
use whippet.CopySpace.Layout.{block_size}
use whippet.CopySpace.State.{
  Block, Space, set_flag, page_out_loop, page_out_blocks_until_memory_released, page_out_block,
  pop_empty_block, paged_out_count, block_list_pop, block_list_push,
}
use whippet.CopySpace.Alloc.Valid.{listed, SpaceIsValid}

-- Paging moved blocks between the empty and the paged-out ones: none is lost, the objects' bytes are
-- left alone, and the bytes still to release change by a block for each block moved.
pub record Pages (s s' : Space) : Type 0 where
  pub conserved : (x : ℕ) → listed x s' ≡ listed x s
  pub same_objects :
      (s'.allocated_bytes ≡ s.allocated_bytes)
      × (s'.partly_full ≡ s.partly_full)
      × (s'.full ≡ s.full)
      × (s'.active_region ≡ s.active_region)
  pub pending :
      s'.bytes_to_page_out +ℤ pos (block_size * paged_out_count s'.paged_out)
      ≡ s.bytes_to_page_out +ℤ pos (block_size * paged_out_count s.paged_out)
  pub space_valid : SpaceIsValid s'

pub Pages-trans : {s t u : Space} → Pages s t → Pages t u → Pages s u
Pages-trans k l = record {
  conserved = λ x. omega (arith, k.conserved x, l.conserved x);
  same_objects = (cc, cc, cc, cc);
  pending = cc (k.pending, l.pending);
  space_valid = l.space_valid;
}

-- Paging out stopped with nothing more to release, or with no empty block left.
pub data Releases (s : Space) : Option (ℤ × Space) → Type 0 where
  released :
      (s' : Space)
      → Pages s s'
      → (s'.bytes_to_page_out ≤ℤ pos 0) ⊎ (s'.empty ≡ [])
      → Releases s (some (s'.bytes_to_page_out, s'))

Releases-trans :
    (s t : Space) → Pages s t → (out : Option (ℤ × Space)) → Releases t out → Releases s out
Releases-trans s t k out (released u l e) = Releases.released u (Pages-trans k l) e

-- The space after one round of paging out.
abbrev paged : Block → List Block → Space → Space
paged b rest s =
    let c = record b {
      allocated = 0;
      is_survivor = set_flag b.is_survivor s.active_region false;
    } in
    record (page_out_block (record s { empty = rest }) c) {
      bytes_to_page_out = s.bytes_to_page_out -ℤ pos block_size;
    }

empty-paged : (b : Block) (rest : List Block) (s : Space) → (paged b rest s).empty ≡ rest
unfolding page_out_block
empty-paged b rest s = ground arith

pending-paged :
    (pending : ℤ) (n m : ℕ)
    → m ≡ suc n
    → pending -ℤ pos block_size +ℤ pos (block_size * m) ≡ pending +ℤ pos (block_size * n)
pending-paged pending n m e = omega int_laws

paged_out_count-paged :
    (b : Block) (rest : List Block) (s : Space)
    → paged_out_count (paged b rest s).paged_out ≡ suc (paged_out_count s.paged_out)
unfolding page_out_block block_list_push
paged_out_count-paged b rest s = ground arith

paged-Pages :
    (b : Block) (rest : List Block) (s : Space)
    → SpaceIsValid (record s { empty = b ∷ rest })
    → Pages (record s { empty = b ∷ rest }) (paged b rest s)
unfolding page_out_block block_list_push
paged-Pages b rest s v = record {
  conserved = λ x. ground arith;
  same_objects = ground arith;
  pending = pending-paged s.bytes_to_page_out _ _ (paged_out_count-paged b rest s);
  space_valid = ground (arith, v.partly_full_fits, v.paged_out_unused);
}

pub Pages-refl : (s : Space) → SpaceIsValid s → Pages s s
Pages-refl s v = record {
  conserved = λ x. refl;
  same_objects = (refl, refl, refl, refl);
  pending = refl;
  space_valid = v;
}

page_out_loop-Releases :
    (fuel : ℕ) (empties : List Block) (s : Space)
    → length empties < fuel
    → let before = record s { empty = empties } in
      SpaceIsValid before → Releases before (page_out_loop fuel s.bytes_to_page_out before)
unfolding page_out_loop pop_empty_block block_list_pop
page_out_loop-Releases zero empties s h v = absurd (omega arith)
page_out_loop-Releases (suc fuel) [] s h v = elim (Bool-cases (ltb_ℤ (pos 0) s.bytes_to_page_out)) [
  | inl e ↦ rw (page_out_loop, e) (Releases.released _ (Pages-refl _ v) (inr refl))
  | inr e ↦ rw (page_out_loop, e) (Releases.released _ (Pages-refl _ v) (inr refl))
]
page_out_loop-Releases (suc fuel) (b ∷ rest) s h v =
    elim (Bool-cases (ltb_ℤ (pos 0) s.bytes_to_page_out)) [
      | inl e ↦
          rw (page_out_loop, e)
            (Releases-trans _ _ (paged-Pages b rest s v) _ (
              page_out_loop-Releases fuel (paged b rest s).empty (paged b rest s)
                (rw (empty-paged b rest s) (omega arith)) (paged-Pages b rest s v).space_valid))
      | inr e ↦ rw (page_out_loop, e) (Releases.released _ (Pages-refl _ v) (inl (ground arith)))
    ]

-- Releasing memory from a valid space ends within the fuel given, when nothing more is to be released
-- or no empty block is left. It loses no block, leaves the blocks with objects alone, and each block
-- paged out takes a block's size off the bytes still to release.
pub page_out_blocks-Releases :
    (s : Space) → SpaceIsValid s → Releases s (page_out_blocks_until_memory_released s)
unfolding page_out_blocks_until_memory_released
page_out_blocks-Releases s v =
    page_out_loop-Releases (suc (length s.empty)) s.empty s (omega arith) v
