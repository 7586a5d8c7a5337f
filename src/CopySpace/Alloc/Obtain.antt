-- ===== src/CopySpace/Alloc/Obtain.antt =====
-- The empty block that an allocator obtains under the lock, on top of its list or paged in.
use whippet.Base.{
  ℕ, ◌+◌, ◌≡◌, refl, ap, subst, List, [], ◌∷◌, Option, none, some, Bool, true, false, ◌==◌, arith,
  tick, All,
}
use whippet.Extents.{Extents}
use whippet.CopySpace.Layout.{region_start}
use whippet.CopySpace.Logging.{contains_address}
use whippet.CopySpace.State.{Block, Space, PagedOut, page_in, page_in_block, pop_empty_block}
use whippet.CopySpace.Alloc.{obtain_empty_block, use_block, obtain_empty_block_during_gc, set_block}
use whippet.CopySpace.Alloc.Valid.{
  paged_out_at, IsUnused, PagedOutIsValid, SpaceIsValid, Keeps, at_rest, at_rest-IsValid,
}

-- What paging in does to the lists of the ages: at most one block goes, and it is unused.
pub record PagesIn (p : PagedOut) (popped : Option Block) (p' : PagedOut) : Type 0 where
  pub valid : PagedOutIsValid p'
  pub unused : (b : Block) → popped ≡ some b → IsUnused b
  pub conserved :
      (x : ℕ)
      → paged_out_at x p' + elim popped [ none ↦ 0 | some b ↦ tick (x == b.addr) ]
        ≡ paged_out_at x p

page_in-cases :
    (l0 l1 l2 l3 : List Block)
    → let p : PagedOut = record { age0 = l0; age1 = l1; age2 = l2; age3 = l3 } in
      PagedOutIsValid p → PagesIn p (page_in p).0 (page_in p).1
unfolding page_in
page_in-cases (c ∷ l0) l1 l2 l3 v = record {
  valid = record {
    unused0 = v.unused0.1;
    unused1 = v.unused1;
    unused2 = v.unused2;
    unused3 = v.unused3;
  };
  unused = λ b e. ground (arith, v.unused0.0);
  conserved = λ x. omega arith;
}
page_in-cases [] (c ∷ l1) l2 l3 v = record {
  valid = record {
    unused0 = v.unused0;
    unused1 = v.unused1.1;
    unused2 = v.unused2;
    unused3 = v.unused3;
  };
  unused = λ b e. ground (arith, v.unused1.0);
  conserved = λ x. omega arith;
}
page_in-cases [] [] (c ∷ l2) l3 v = record {
  valid = record {
    unused0 = v.unused0;
    unused1 = v.unused1;
    unused2 = v.unused2.1;
    unused3 = v.unused3;
  };
  unused = λ b e. ground (arith, v.unused2.0);
  conserved = λ x. omega arith;
}
page_in-cases [] [] [] (c ∷ l3) v = record {
  valid = record {
    unused0 = v.unused0;
    unused1 = v.unused1;
    unused2 = v.unused2;
    unused3 = v.unused3.1;
  };
  unused = λ b e. ground (arith, v.unused3.0);
  conserved = λ x. omega arith;
}
page_in-cases [] [] [] [] v = record { valid = v; unused = λ b e. cc; conserved = λ x. omega arith }

pub page_in-PagesIn : (p : PagedOut) → PagedOutIsValid p → PagesIn p (page_in p).0 (page_in p).1
page_in-PagesIn p v = page_in-cases p.age0 p.age1 p.age2 p.age3 v

module _ (extents : Extents) where
  -- The space contains the region in use of a block.
  abbrev pub RegionInside : Bool → Block → Type 0
  RegionInside region b = contains_address extents (region_start b.addr region) ≡ some true

  -- It contains those of all blocks without objects.
  pub record UnusedInside (region : Bool) (empties : List Block) (p : PagedOut) : Type 0 where
    pub inside : All (RegionInside region) empties
    pub inside0 : All (RegionInside region) p.age0
    pub inside1 : All (RegionInside region) p.age1
    pub inside2 : All (RegionInside region) p.age2
    pub inside3 : All (RegionInside region) p.age3

  head_inside :
      (region : Bool) (b c : Block)
      → RegionInside region c
      → some c ≡ some b
      → RegionInside region b
  head_inside region b c h e =
      subst (RegionInside region) (ap (λ (o : Option Block). elim o [ none ↦ c | some x ↦ x ]) e) h

  page_in-inside :
      (region : Bool) (b : Block) (empties l0 l1 l2 l3 : List Block)
      → let p : PagedOut = record { age0 = l0; age1 = l1; age2 = l2; age3 = l3 } in
        UnusedInside region empties p → (page_in p).0 ≡ some b → RegionInside region b
  unfolding page_in
  page_in-inside region b empties (c ∷ l0) l1 l2 l3 v e = head_inside region b c v.inside0.0 e
  page_in-inside region b empties [] (c ∷ l1) l2 l3 v e = head_inside region b c v.inside1.0 e
  page_in-inside region b empties [] [] (c ∷ l2) l3 v e = head_inside region b c v.inside2.0 e
  page_in-inside region b empties [] [] [] (c ∷ l3) v e = head_inside region b c v.inside3.0 e
  page_in-inside region b empties [] [] [] [] v e = absurd (cc e)

  -- What obtaining an empty block did: it took one, of which a whole region is free, or there was none.
  pub data Obtains (s : Space) : Option (Option Block × Space) → Type 0 where
    taken :
        (b : Block) (s' : Space)
        → Keeps at_rest s (set_block (use_block b s.active_region) s.active_region) s'
        → RegionInside s.active_region b
        → Obtains s (some (some b, s'))
    refused : (s' : Space) → Keeps at_rest s at_rest s' → Obtains s (some (none, s'))

  obtain_empty :
      (b : Block) (rest : List Block) (s : Space)
      → let before = record s { empty = b ∷ rest } in
        SpaceIsValid before
        → RegionInside s.active_region b
        → Obtains before (obtain_empty_block before)
  unfolding obtain_empty_block pop_empty_block set_block
  obtain_empty b rest s v h =
      Obtains.taken _ _
        record {
          conserved = λ x. omega arith;
          accounted = omega arith;
          same_region = refl;
          space_valid = record {
            partly_full_fits = v.partly_full_fits;
            paged_out_unused = v.paged_out_unused;
          };
          allocator_valid = record { at_rest = λ e. cc; in_block = λ c e. ground arith };
        }
        h

  obtain_paged :
      (s : Space)
      → let before = record s { empty = []; in_gc = true } in
        SpaceIsValid before
        → (popped : Option Block) → (page_in s.paged_out).0 ≡ popped
        → PagesIn s.paged_out popped (page_in s.paged_out).1
        → ((b : Block) → popped ≡ some b → RegionInside s.active_region b)
        → Obtains before (obtain_empty_block before)
  unfolding obtain_empty_block obtain_empty_block_during_gc page_in_block pop_empty_block set_block
  obtain_paged s v none e k h =
      rw (obtain_empty_block_during_gc, e)
        (Obtains.refused _ record {
          conserved = λ x. omega (arith, k.conserved x);
          accounted = omega arith;
          same_region = refl;
          space_valid = record {
            partly_full_fits = v.partly_full_fits;
            paged_out_unused = k.valid;
          };
          allocator_valid = at_rest-IsValid _;
        })
  obtain_paged s v (some b) e k h =
      let unused = k.unused b refl in
      rw (obtain_empty_block_during_gc, e)
        (Obtains.taken _ _
          record {
            conserved = λ x. omega (arith, k.conserved x);
            accounted = omega (arith, unused);
            same_region = refl;
            space_valid = record {
              partly_full_fits = v.partly_full_fits;
              paged_out_unused = k.valid;
            };
            allocator_valid = record {
              at_rest = λ e. cc;
              in_block = λ c e. ground (arith, unused);
            };
          }
          (h b refl))

  pub obtain_empty_block-cases :
      (empties : List Block) (in_gc : Bool) (s : Space)
      → let before = record s { empty = empties; in_gc = in_gc } in
        SpaceIsValid before
        → UnusedInside s.active_region empties s.paged_out
        → Obtains before (obtain_empty_block before)
  unfolding obtain_empty_block pop_empty_block
  obtain_empty_block-cases (b ∷ rest) in_gc s v h =
      obtain_empty b rest (record s { in_gc = in_gc }) v h.inside.0
  obtain_empty_block-cases [] true s v h =
      obtain_paged s v _ refl (page_in-PagesIn s.paged_out v.paged_out_unused) (λ b e.
        let p = s.paged_out in page_in-inside s.active_region b [] p.age0 p.age1 p.age2 p.age3 h e)
  obtain_empty_block-cases [] false s v h = Obtains.refused _ record {
    conserved = λ x. omega arith;
    accounted = omega arith;
    same_region = refl;
    space_valid = record {
      partly_full_fits = v.partly_full_fits;
      paged_out_unused = v.paged_out_unused;
    };
    allocator_valid = at_rest-IsValid _;
  }
