-- ===== src/LargeObject/Quarantine.antt =====
-- The quarantine, list by list.
use whippet.Base.{
  ℕ, ◌+◌, ◌%◌, ◌≤◌, ◌<◌, ◌≡◌, ◌∙◌, refl, ap, List, [], ◌∷◌, Option, some, ltb, arith, count,
  Bool-cases, inl, inr, ◌>>=◌,
}
use whippet.SplayTree.Contents.{delete}
use whippet.LargeObject.Span.{LargeObject, large_object_compare}
use whippet.LargeObject.Space.{dead, Node, Space, set_node, contains, remove, erase}
use whippet.LargeObject.Cycle.{process_list, next_age}
use whippet.LargeObject.Nodes.{total, at, total_of_node_at, total-le, IsApart-total}
use whippet.LargeObject.Valid.{hole_at, contains-count}
use whippet.LargeObject.Round.{
  hole-Hole, with_tree, Consistent, Round, keep-Round, release-Round, then-Round, hole_at-le-at,
}

remove-erase : (a : ℕ) (keys : List ℕ) → 0 < count a keys → remove a keys ≡ some (erase a keys)
unfolding remove
remove-erase a keys h = rw (contains-count a keys h) refl

abbrev add_kept : ℕ → List ℕ × List LargeObject × Space → Option (List ℕ × List LargeObject × Space)
add_kept ptr r = some (ptr ∷ r.0, r.1, r.2)

abbrev add_released :
    LargeObject → List ℕ × List LargeObject × Space → Option (List ℕ × List LargeObject × Space)
add_released key r = some (r.0, key ∷ r.1, r.2)

abbrev go_on :
    Space → List ℕ → LargeObject → ℕ → List ℕ → Option (List ℕ × List LargeObject × Space)
go_on s ptrs key a m =
    process_list ptrs (with_tree s (delete large_object_compare a s.object_tree) m)
    >>= add_released key

-- The branch that releases a node, which names it by the start of its span.
released_run :
    (s : Space) (ptr : ℕ) (key : LargeObject) (ptrs : List ℕ)
    → key.addr ≡ ptr
    → 0 < count ptr s.object_map
    → (remove key.addr s.object_map >>= go_on s ptrs key key.addr)
      ≡ go_on s ptrs key ptr (erase ptr s.object_map)
released_run s ptr key ptrs starts h =
    ap (λ (a : ℕ). remove a s.object_map >>= go_on s ptrs key a) starts
    ∙ ap (λ o. o >>= go_on s ptrs key ptr) (remove-erase ptr s.object_map h)

pub record ProcessedList (s : Space) (i : ℕ) (ptrs : List ℕ)
    (out : Option (List ℕ × List LargeObject × Space)) : Type 0 where
  pub tree : List Node
  pub object_map : List ℕ
  pub kept : List ℕ
  pub released : List LargeObject
  pub run : out ≡ some (kept, released, with_tree s tree object_map)
  pub round : Round s i ptrs tree object_map kept released

pub process_list-Processed :
    (i : ℕ) (ptrs : List ℕ) (s : Space)
    → Consistent s
    → ((a : ℕ) → count a ptrs ≤ total (hole_at i a) s.object_tree)
    → ProcessedList s i ptrs (process_list ptrs s)
unfolding process_list contains
process_list-Processed i [] s c h = record {
  tree = s.object_tree;
  object_map = s.object_map;
  kept = [];
  released = [];
  run = refl;
  round = record {
    consistent = c;
    nodes = λ b. refl;
    holes = λ a. refl;
    others = λ j a ne. refl;
    lives = λ w z. refl;
    spans = λ w. omega arith;
  };
}
process_list-Processed i (ptr ∷ ptrs) s c h =
    let hole = hole-Hole i ptr s.object_tree c.apart (ground (arith, h ptr)) in
    let once : count ptr ptrs ≡ 0 = ground (
      arith,
      h ptr,
      IsApart-total ptr s.object_tree c.apart,
      total-le (hole_at i ptr) (at ptr) (hole_at-le-at i ptr) s.object_tree,
    ) in
    elim (Bool-cases (ltb ((hole.age + 1) % 256) 2)) [
      | inl e ↦
          let k = keep-Round s c i ptr hole e in
          let tree = set_node ptr (hole.key, dead ((hole.age + 1) % 256)) s.object_tree in
          let s' = with_tree s tree s.object_map in
          let rest =
            process_list-Processed i ptrs s' k.consistent (λ a. omega (arith, h a, k.holes a)) in
          record {
            tree = rest.tree;
            object_map = rest.object_map;
            kept = ptr ∷ rest.kept;
            released = rest.released;
            run =
                rw (process_list, hole.found, ◌>>=◌, next_age, e)
                  (ap (λ o. o >>= add_kept ptr) rest.run);
            round =
                then-Round s i ptr ptrs (ptr ∷ []) rest.kept [] rest.released tree rest.tree
                  s.object_map rest.object_map once k rest.round;
          }
      | inr e ↦
          let k = release-Round s c i ptr hole e in
          let tree = delete large_object_compare ptr s.object_tree in
          let object_map = erase ptr s.object_map in
          let s' = with_tree s tree object_map in
          let rest =
            process_list-Processed i ptrs s' k.consistent (λ a. omega (arith, h a, k.holes a)) in
          record {
            tree = rest.tree;
            object_map = rest.object_map;
            kept = rest.kept;
            released = hole.key ∷ rest.released;
            run =
                rw (process_list, hole.found, ◌>>=◌, next_age, e)
                  (released_run s ptr hole.key ptrs hole.starts (
                      ground (
                        arith,
                        c.mapped ptr,
                        total_of_node_at ptr (hole.key, dead hole.age) s.object_tree hole.found,
                      ))
                    ∙ ap (λ o. o >>= add_released hole.key) rest.run);
            round =
                then-Round s i ptr ptrs [] rest.kept (hole.key ∷ []) rest.released tree rest.tree
                  object_map rest.object_map once k rest.round;
          }
    ]
