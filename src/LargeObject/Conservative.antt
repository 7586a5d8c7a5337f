-- ===== src/LargeObject/Conservative.antt =====
-- Conservative references against the spans of the nodes.
use whippet.Base.{
  ℕ, ◌≤◌, ◌<◌, ◌≡◌, ◌∙◌, ◌⊎◌, refl, sym, ap, subst, List, [], ◌∷◌, Option, none, some, Bool, true,
  ◌==◌, arith, length, map, All, Bool-cases, inl, inr, ◌>>=◌, if◌then◌else◌,
}
use whippet.Base.Word.{word_mod}
use whippet.Extents.{Extents, ExtentRange, make_range, IsSorted, contain_addr}
use whippet.Extents
use whippet.Extents.Search.{scan, contain_addr-scan}
use whippet.SplayTree.Order.{Ordering-cases}
use whippet.SplayTree.Contents.{find}
use whippet.LargeObject.Span.{large_object_compare}
use whippet.LargeObject.Space.{Node, Space, node_at, contains, lookup, object_containing_edge}
use whippet.LargeObject.Alloc.{
  conservative_start, lookup_node, lookup_conservative_ref, resolve_conservative_ref,
  strip_displacement,
}
use whippet.LargeObject.Nodes.{end, IsApart}
use whippet.LargeObject.Insertion.{find-node_at, find_inv, compare-eq_inv, compare-ne_inv}
use whippet.LargeObject.Valid.{IsValid, contains_inv}
use whippet.LargeObject.Mark.{node_of_key}
use whippet.LargeObject.Prepare.{range_of, Fits}

-- The start of the node found, or 0.
abbrev start_of : Option Node → ℕ
start_of none = 0
start_of (some n) = n.0.addr

All-behind :
    (n : Node) (ns : List Node)
    → end n < word_mod
    → All (λ m. end n ≤ m.0.addr) ns
    → All (λ r. (range_of n).hi_addr ≤ r.lo_addr) (map range_of ns)
unfolding make_range
All-behind n [] f h = tt
All-behind n (m ∷ ns) f (h, hs) = (omega (arith, h, f), All-behind n ns f hs)

IsSorted-ranges : (ns : List Node) → IsApart ns → Fits ns → IsSorted (map range_of ns)
unfolding make_range
IsSorted-ranges [] a f = tt
IsSorted-ranges (n ∷ ns) (p, al, a) (f, fs) =
    (omega (arith, p, f), All-behind n ns f al, IsSorted-ranges ns a fs)

-- In the spans of all nodes, a scan finds the start of the node that the tree finds.
scan-find :
    (ns : List Node) (addr : ℕ)
    → Fits ns
    → scan (map range_of ns) addr ≡ start_of (find large_object_compare addr ns)
unfolding scan make_range find
scan-find [] addr f = refl
scan-find (n ∷ ns) addr (f, fs) = elim (Ordering-cases (large_object_compare addr n.0)) [
  | inl c ↦ rw (c, find) (ground (arith, scan-find ns addr fs, f, compare-ne_inv addr n (λ e. cc)))
  | inr (inl c) ↦ rw (c, find) (ground (arith, f, compare-eq_inv addr n c))
  | inr (inr c) ↦
      rw (c, find) (ground (arith, scan-find ns addr fs, f, compare-ne_inv addr n (λ e. cc)))
]

-- The extents are empty, or hold the spans of all objects, as in a collection.
abbrev pub ExtentsAgree : Space → Type 0
ExtentsAgree s = (s.extents.ranges ≡ []) ⊎ (s.extents.ranges ≡ map range_of s.object_tree)

module _ (s : Space) (v : IsValid s) where
  lookup_node-find :
      (addr : ℕ) → lookup_node s addr true ≡ some (find large_object_compare addr s.object_tree)
  unfolding lookup_node lookup
  lookup_node-find addr = elim (Bool-cases (contains addr s.object_map)) [
    | inl e ↦
        let (n, h) = node_of_key s addr v.sound (contains_inv addr s.object_map e) in
        rw (lookup_node, lookup, e, h, ◌>>=◌)
          (ap some (sym (find-node_at addr n s.object_tree h v.sound.apart)))
    | inr e ↦ rw (lookup_node, lookup, e) refl
  ]

  -- The node that contains an address is also found by its start.
  find_start :
      (addr : ℕ) (n : Node)
      → find large_object_compare addr s.object_tree ≡ some n
      → find large_object_compare n.0.addr s.object_tree ≡ some n
  find_start addr n h =
      let (_, _, there) = find_inv addr n s.object_tree h in
      find-node_at n.0.addr n s.object_tree (there v.sound.apart) v.sound.apart

  -- Looking up by the start that the extents give finds the node that the tree finds.
  by_extents :
      (addr : ℕ) (found : Option Node)
      → find large_object_compare addr s.object_tree ≡ found
      → node_at 0 s.object_tree ≡ none
      → (do
        start ← if start_of found == 0 then some none else some (some (start_of found))
        elim start [ none ↦ some none | some addr' ↦ lookup_node s addr' true ])
        ≡ some found
  by_extents addr none h z = refl
  by_extents addr (some n) h z = elim (Bool-cases (n.0.addr == 0)) [
    | inl e ↦
        let there = (find_inv addr n s.object_tree h).2 v.sound.apart in
        let zero_ : n.0.addr ≡ 0 = ground arith in
        cc (ap (λ (a : ℕ). node_at a s.object_tree) zero_)
    | inr e ↦ rw (e, ◌>>=◌) (lookup_node-find n.0.addr ∙ ap some (find_start addr n h))
  ]

  found_interior :
      (is_valid_displacement : ℕ → Bool) (ref : ℕ)
      → Fits s.object_tree
      → node_at 0 s.object_tree ≡ none
      → ExtentsAgree s
      → lookup_conservative_ref is_valid_displacement s ref true
        ≡ some (find large_object_compare ref s.object_tree)
  unfolding lookup_conservative_ref strip_displacement conservative_start
  found_interior is_valid_displacement ref f z agree =
      elim (Bool-cases (Extents.size s.extents == 0)) [
        | inl e ↦ rw (e, ◌>>=◌) (lookup_node-find ref)
        | inr e ↦
            let ranges : s.extents.ranges ≡ map range_of s.object_tree = elim agree [
              | inl empty ↦ cc (ap length empty)
              | inr ranges ↦ ranges
            ] in
            let sorted : IsSorted s.extents.ranges =
              subst IsSorted (sym ranges) (IsSorted-ranges s.object_tree v.sound.apart f) in
            let search : contain_addr s.extents ref
                ≡ some (start_of (find large_object_compare ref s.object_tree)) =
              contain_addr-scan s.extents ref sorted
              ∙ ap some (ap (λ rs. scan rs ref) ranges ∙ scan-find s.object_tree ref f) in
            rw (e, search, ◌>>=◌) (by_extents ref _ refl z)
      ]

-- Outside a collection, and within one, whose extents are the spans of all objects, a reference that may
-- be interior resolves by the map, the extents and the tree to the same object that a search of the tree
-- finds for an edge: the live one that contains it, or null; no assertion fails. No object is at null.
pub resolve_conservative_ref-object_containing_edge :
    (is_valid_displacement : ℕ → Bool) (s : Space) (ref : ℕ)
    → IsValid s
    → Fits s.object_tree
    → node_at 0 s.object_tree ≡ none
    → ExtentsAgree s
    → resolve_conservative_ref is_valid_displacement s ref true
      ≡ some (object_containing_edge s ref)
unfolding resolve_conservative_ref object_containing_edge
resolve_conservative_ref-object_containing_edge is_valid_displacement s ref v f z agree =
    rw (found_interior s v is_valid_displacement ref f z agree, ◌>>=◌) refl
