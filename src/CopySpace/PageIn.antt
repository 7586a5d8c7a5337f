-- ===== src/CopySpace/PageIn.antt =====
-- Paging in: taking back memory, and the ageing of the blocks that wait to be unmapped.
use whippet.Base.{
  ℕ, zero, suc, ◌+◌, ◌*◌, ◌<◌, ◌≡◌, refl, List, [], ◌∷◌, Option, none, some, true, false, arith,
  All, ◌⊎◌, ap, inl, inr, Bool-cases, ◌==◌, tick,
}
use whippet.Base.Int.{ℤ, pos, ◌+ℤ◌, ◌-ℤ◌, ltb_ℤ, int_laws}
use whippet.CopySpace.Layout.{block_size}
use whippet.CopySpace.State.{
  Block, Space, PagedOut, move_all, advance_page_out_queue, page_out_blocks, discard,
  push_empty_block, reacquire_loop, maybe_reacquire_memory, page_in, page_in_block, paged_out_count,
  block_list_pop, block_list_push,
}
use whippet.CopySpace.Alloc.Valid.{header_count, listed, SpaceIsValid, IsUnused}
use whippet.CopySpace.Alloc.Obtain.{PagesIn, page_in-PagesIn}
use whippet.CopySpace.PageOut.{Pages, Pages-refl, Pages-trans}

-- The space after one round of paging in the block `b`, which left `p`.
abbrev reacquired : Block → PagedOut → Space → Space
reacquired b p s = record s {
  empty = b ∷ s.empty;
  paged_out = p;
  bytes_to_page_out = s.bytes_to_page_out +ℤ pos block_size;
}

-- Paging in stopped with less than a block's size left to take back, or with no block paged out.
pub data Reacquires (s : Space) : Option (ℤ × Space) → Type 0 where
  reacquired_all :
      (s' : Space)
      → Pages s s'
      → (ltb_ℤ (pos 0) (s'.bytes_to_page_out +ℤ pos block_size) ≡ true)
        ⊎ (paged_out_count s'.paged_out ≡ 0)
      → Reacquires s (some (s'.bytes_to_page_out, s'))

Reacquires-trans :
    (s t : Space) → Pages s t → (out : Option (ℤ × Space)) → Reacquires t out → Reacquires s out
Reacquires-trans s t k out (reacquired_all u l e) = Reacquires.reacquired_all u (Pages-trans k l) e

pending-reacquired :
    (pending : ℤ) (n m : ℕ)
    → n ≡ suc m
    → pending +ℤ pos block_size +ℤ pos (block_size * m) ≡ pending +ℤ pos (block_size * n)
pending-reacquired pending n m e = omega int_laws

-- Paging in found a block exactly if there was one, and counts one less.
abbrev Counts : PagedOut → Option Block → PagedOut → Type 0
Counts p none p' = (paged_out_count p ≡ 0) × (p' ≡ p)
Counts p (some b) p' = paged_out_count p ≡ suc (paged_out_count p')

page_in-Counts :
    (l0 l1 l2 l3 : List Block)
    → let p : PagedOut = record { age0 = l0; age1 = l1; age2 = l2; age3 = l3 } in
      Counts p (page_in p).0 (page_in p).1
unfolding page_in block_list_pop
page_in-Counts (c ∷ l0) l1 l2 l3 = omega arith
page_in-Counts [] (c ∷ l1) l2 l3 = omega arith
page_in-Counts [] [] (c ∷ l2) l3 = omega arith
page_in-Counts [] [] [] (c ∷ l3) = omega arith
page_in-Counts [] [] [] [] = (omega arith, refl)

reacquired-Pages :
    (s : Space) (b : Block) (p : PagedOut)
    → SpaceIsValid s
    → PagesIn s.paged_out (some b) p
    → paged_out_count s.paged_out ≡ suc (paged_out_count p)
    → Pages s (reacquired b p s)
reacquired-Pages s b p v k e = record {
  conserved = λ x. omega (arith, k.conserved x);
  same_objects = (refl, refl, refl, refl);
  pending = pending-reacquired s.bytes_to_page_out _ _ e;
  space_valid = record { partly_full_fits = v.partly_full_fits; paged_out_unused = k.valid };
}

-- A round of the loop, by what paging in found.
reacquire_round-Reacquires :
    (fuel : ℕ) (s : Space) (popped : Option Block) (p : PagedOut)
    → SpaceIsValid s
    → PagesIn s.paged_out popped p
    → Counts s.paged_out popped p
    → ((b : Block)
        → paged_out_count s.paged_out ≡ suc (paged_out_count p)
        → SpaceIsValid (reacquired b p s)
        → Reacquires
            (reacquired b p s)
            (reacquire_loop fuel (s.bytes_to_page_out +ℤ pos block_size) (reacquired b p s)))
    → Reacquires s (elim popped [
      | none ↦ some (s.bytes_to_page_out, record s { paged_out = p })
      | some b ↦ reacquire_loop fuel (s.bytes_to_page_out +ℤ pos block_size) (reacquired b p s)
    ])
reacquire_round-Reacquires fuel s none p v k (e, same) next =
    rw same (Reacquires.reacquired_all s (Pages-refl s v) (inr e))
reacquire_round-Reacquires fuel s (some b) p v k e next =
    Reacquires-trans s _ (reacquired-Pages s b p v k e) _
      (next b e (reacquired-Pages s b p v k e).space_valid)

reacquire_loop-Reacquires :
    (fuel : ℕ) (s : Space)
    → paged_out_count s.paged_out < fuel
    → SpaceIsValid s
    → Reacquires s (reacquire_loop fuel s.bytes_to_page_out s)
unfolding reacquire_loop page_in_block push_empty_block block_list_push
reacquire_loop-Reacquires zero s h v = absurd (omega arith)
reacquire_loop-Reacquires (suc fuel) s h v =
    let p = s.paged_out in
    let k = page_in-PagesIn p v.paged_out_unused in
    let counts = page_in-Counts p.age0 p.age1 p.age2 p.age3 in
    elim (Bool-cases (ltb_ℤ (pos 0) (s.bytes_to_page_out +ℤ pos block_size))) [
      | inl e ↦ rw (reacquire_loop, e) (Reacquires.reacquired_all s (Pages-refl s v) (inl e))
      | inr e ↦
          rw (reacquire_loop, e)
            (reacquire_round-Reacquires fuel s (page_in p).0 (page_in p).1 v k counts (λ b less w.
              reacquire_loop-Reacquires fuel (reacquired b (page_in p).1 s) (omega arith) w))
    ]

-- Taking back `bytes` of a valid space ends within the fuel given, when less than a block's size is
-- left to take back or no block is paged out. It loses no block, leaves the blocks with objects
-- alone, and each block paged in adds a block's size to the bytes to release.
pub maybe_reacquire_memory-Reacquires :
    (s : Space) (bytes : ℕ)
    → SpaceIsValid s
    → Reacquires
        (record s { bytes_to_page_out = s.bytes_to_page_out -ℤ pos bytes })
        (maybe_reacquire_memory s bytes)
unfolding maybe_reacquire_memory
maybe_reacquire_memory-Reacquires s bytes v =
    reacquire_loop-Reacquires (suc (paged_out_count s.paged_out)) _ (omega arith)
      record { partly_full_fits = v.partly_full_fits; paged_out_unused = v.paged_out_unused }

move_all-count :
    (f : Block → Block) (x : ℕ) (from to : List Block)
    → ((b : Block) → (f b).addr ≡ b.addr)
    → header_count x (move_all f from to) ≡ header_count x from + header_count x to
unfolding move_all block_list_push
move_all-count f x [] to same = omega arith
move_all-count f x (b ∷ from) to same =
    omega (arith, move_all-count f x from (f b ∷ to) same, ap (λ (a : ℕ). tick (x == a)) (same b))

All-move_all {κ} :
    (P : Block → Type κ) (f : Block → Block) (from to : List Block)
    → All (λ b. P (f b)) from
    → All P to
    → All P (move_all f from to)
unfolding move_all block_list_push
All-move_all P f [] to a b = b
All-move_all P f (c ∷ from) to a b = All-move_all P f from (f c ∷ to) a.1 (a.0, b)

-- Ageing keeps a valid space valid and loses no block: each younger age moves on by one, and what was
-- due stays due.
pub advance_page_out_queue-listed :
    (s : Space) (x : ℕ)
    → SpaceIsValid s
    → let s' = advance_page_out_queue s in
      let p = s.paged_out in
      let p' = s'.paged_out in
      (p'.age0 ≡ [])
      × (header_count x p'.age1 ≡ header_count x p.age0)
      × (header_count x p'.age2 ≡ header_count x p.age1 + header_count x p.age2)
      × (p'.age3 ≡ p.age3)
      × (listed x s' ≡ listed x s)
      × SpaceIsValid s'
unfolding advance_page_out_queue
advance_page_out_queue-listed s x v =
    let p = s.paged_out in
    let c1 = move_all-count (λ b. b) x p.age0 [] (λ b. refl) in
    let c2 = move_all-count (λ b. b) x p.age1 p.age2 (λ b. refl) in
    let w = v.paged_out_unused in
    (
      refl,
      omega arith,
      omega arith,
      refl,
      omega arith,
      record {
        partly_full_fits = v.partly_full_fits;
        paged_out_unused = record {
          unused0 = tt;
          unused1 = All-move_all IsUnused (λ b. b) p.age0 [] w.unused0 tt;
          unused2 = All-move_all IsUnused (λ b. b) p.age1 p.age2 w.unused1 w.unused2;
          unused3 = w.unused3;
        };
      },
    )

-- The memory of the block is the system's: both regions read as zeroes.
abbrev pub IsDiscarded : Block → Type 0
IsDiscarded b = (b.in_core ≡ false) × (b.all_zeroes.first ≡ true) × (b.all_zeroes.second ≡ true)

All-true : (P : Block → Type 0) (bs : List Block) → ((b : Block) → P b) → All P bs
All-true P [] h = tt
All-true P (b ∷ bs) h = (h b, All-true P bs h)

-- Paging out for good takes every block that is due and no other: those join the discarded ones, and
-- all of them are then marked as out of core and zeroed. It loses no block and keeps the space valid.
pub page_out_blocks-IsDiscarded :
    (s : Space) (x : ℕ)
    → SpaceIsValid s
    → All IsDiscarded s.paged_out.age3
    → let s' = page_out_blocks s in
      let p = s.paged_out in
      let p' = s'.paged_out in
      All IsDiscarded p'.age3
      × (p'.age2 ≡ [])
      × (p'.age1 ≡ p.age1)
      × (p'.age0 ≡ p.age0)
      × (header_count x p'.age3 ≡ header_count x p.age2 + header_count x p.age3)
      × (listed x s' ≡ listed x s)
      × SpaceIsValid s'
unfolding page_out_blocks
page_out_blocks-IsDiscarded s x v gone =
    let p = s.paged_out in
    let c = move_all-count discard x p.age2 p.age3 (λ b. refl) in
    let w = v.paged_out_unused in
    (
      All-move_all IsDiscarded discard p.age2 p.age3 (All-true _ p.age2 (λ b. (refl, refl, refl)))
          gone,
      refl,
      refl,
      refl,
      omega arith,
      omega arith,
      record {
        partly_full_fits = v.partly_full_fits;
        paged_out_unused = record {
          unused0 = w.unused0;
          unused1 = w.unused1;
          unused2 = tt;
          unused3 = All-move_all IsUnused discard p.age2 p.age3 w.unused2 w.unused3;
        };
      },
    )
