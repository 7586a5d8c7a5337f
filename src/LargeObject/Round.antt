-- ===== src/LargeObject/Round.antt =====
-- A round of the quarantine: dead objects age, and the old ones go back to the platform.
use whippet.Base.{
  ℕ, ◌+◌, ◌%◌, ◌≤◌, ◌<◌, ◌≡◌, ◌≢◌, ◌∙◌, refl, sym, ap, List, [], ◌∷◌, ◌++◌, Option, none, some,
  Bool, true, false, ltb, ◌==◌, if◌then◌else◌, arith, count, count-append, Bool-cases, inl, inr,
}
use whippet.SplayTree.Contents.{delete}
use whippet.LargeObject.Span.{LargeObject, large_object_compare}
use whippet.LargeObject.Space.{
  live, dead, Node, Space, node_at, set_node, contains, erase, size_class,
}
use whippet.LargeObject.Nodes.{
  total, at, IsApart, total-set_node, node_at-addr, node_at_of_total, total_of_node_at, total_only,
  total-le, IsApart-set_node, IsApart-total,
}
use whippet.LargeObject.Insertion.{
  node_at-none, node_at-delete, IsApart-pos, node_at-set_node, find-node_at, total-delete,
  IsApart-delete,
}
use whippet.LargeObject.Valid.{hole_at, odd_bytes, contains_none, count-erase}

-- What a round makes of what stands at an address.
abbrev pub aged : Option Node → Option Node
aged none = none
aged (some (key, live m t)) = some (key, live m t)
aged (some (key, dead age)) =
    if ltb ((age + 1) % 256) 2 then some (key, dead ((age + 1) % 256)) else none

pub hole_at-le-at : (i b : ℕ) (n : Node) → hole_at i b n ≤ at b n
hole_at-le-at i b (key, live m t) = omega arith
hole_at-le-at i b (key, dead age) = ground arith

-- A hole that is counted is a dead node of its class.
pub record Hole (i ptr : ℕ) (ns : List Node) : Type 0 where
  pub key : LargeObject
  pub age : ℕ
  pub found : node_at ptr ns ≡ some (key, dead age)
  pub class : i ≡ size_class key.size
  pub starts : key.addr ≡ ptr

pub hole-Hole :
    (i ptr : ℕ) (ns : List Node) → IsApart ns → 0 < total (hole_at i ptr) ns → Hole i ptr ns
hole-Hole i ptr ns ap' h =
    let (n, found) =
      node_at_of_total ptr ns
        (omega (arith, total-le (hole_at i ptr) (at ptr) (hole_at-le-at i ptr) ns)) in
    let only =
      total_only (hole_at i ptr) ptr n ns (hole_at-le-at i ptr) found (IsApart-total ptr ns ap') in
    go n found (omega (arith, only))
  where
    go : (n : Node) → node_at ptr ns ≡ some n → 0 < hole_at i ptr n → Hole i ptr ns
    go (key, live m t) found pos = absurd (omega arith)
    go (key, dead age) found pos = record {
      key = key;
      age = age;
      found = found;
      class = ground arith;
      starts = node_at-addr ptr (key, dead age) ns found;
    }

abbrev pub with_tree : Space → List Node → List ℕ → Space
with_tree s tree object_map = record s { object_tree = tree; object_map = object_map }

-- What a round needs of the nodes, and keeps.
pub record Consistent (s : Space) : Type 0 where
  pub apart : IsApart s.object_tree
  pub whole : total (odd_bytes s.page_size_log2) s.object_tree ≡ 0
  pub mapped : (a : ℕ) → count a s.object_map ≡ total (at a) s.object_tree

-- A sum over spans.
abbrev pub sum_spans : (LargeObject → ℕ) → List LargeObject → ℕ
sum_spans w [] = 0
sum_spans w (x ∷ xs) = w x + sum_spans w xs

-- A part of a round, over a list of dead nodes of one class: what is kept is a round older, and what is
-- released is gone from the tree and the map.
pub record Round (s : Space) (i : ℕ) (ptrs : List ℕ) (tree : List Node) (object_map : List ℕ)
    (kept : List ℕ) (released : List LargeObject) : Type 0 where
  pub consistent : Consistent (with_tree s tree object_map)
  pub nodes :
      (b : ℕ)
      → node_at b tree
        ≡ (if contains b ptrs then aged (node_at b s.object_tree) else node_at b s.object_tree)
  pub holes :
      (a : ℕ)
      → total (hole_at i a) tree + count a ptrs ≡ total (hole_at i a) s.object_tree + count a kept
  pub others : (j a : ℕ) → j ≢ i → total (hole_at j a) tree ≡ total (hole_at j a) s.object_tree
  pub lives :
      (w : Node → ℕ)
      → ((key : LargeObject) (age : ℕ) → w (key, dead age) ≡ 0)
      → total w tree ≡ total w s.object_tree
  pub spans :
      (w : LargeObject → ℕ)
      → total (λ n. w n.0) tree + sum_spans w released ≡ total (λ n. w n.0) s.object_tree

aged_at :
    (ptr b : ℕ) (n : Node) (out : Option Node) (ns : List Node)
    → node_at ptr ns ≡ some n
    → aged (some n) ≡ out
    → (if b == ptr then out else node_at b ns)
      ≡ (if contains b (ptr ∷ []) then aged (node_at b ns) else node_at b ns)
unfolding contains
aged_at ptr b n out ns h h' = elim (Bool-cases (b == ptr)) [
  | inl e ↦
      let same : b ≡ ptr = ground arith in
      rw e (sym (ap (λ k. aged (node_at k ns)) same ∙ ap aged h ∙ h'))
  | inr e ↦ rw e refl
]

module _ (s : Space) (c : Consistent s) (i ptr : ℕ) (h : Hole i ptr s.object_tree) where
  node : Node
  node = (h.key, dead h.age)

  pub keep-Round :
      ltb ((h.age + 1) % 256) 2 ≡ true
      → Round s i
          (ptr ∷ [])
          (set_node ptr (h.key, dead ((h.age + 1) % 256)) s.object_tree)
          s.object_map
          (ptr ∷ [])
          []
  unfolding node contains
  keep-Round young =
      let n' : Node = (h.key, dead ((h.age + 1) % 256)) in
      let step = λ (w : Node → ℕ). total-set_node w ptr node n' s.object_tree h.found in
      record {
        consistent = record {
          apart =
              IsApart-set_node ptr node n' s.object_tree h.found refl
                (IsApart-pos ptr node s.object_tree h.found c.apart) (omega arith) c.apart;
          whole = omega (arith, step (odd_bytes s.page_size_log2), c.whole);
          mapped = λ a. omega (arith, step (at a), c.mapped a);
        };
        nodes = λ b.
            node_at-set_node b ptr node n' s.object_tree h.found refl
            ∙ aged_at ptr b node (some n') s.object_tree h.found (rw young refl);
        holes = λ a. omega (arith, step (hole_at i a));
        others = λ j a ne. omega (arith, step (hole_at j a));
        lives = λ w z. omega (arith, step w, z h.key h.age, z h.key ((h.age + 1) % 256));
        spans = λ w. omega (arith, step (λ n. w n.0));
      }

  gone :
      (b : ℕ)
      → node_at b (delete large_object_compare ptr s.object_tree)
        ≡ (if b == ptr then none else node_at b s.object_tree)
  unfolding node
  gone b =
      let found = find-node_at ptr node s.object_tree h.found c.apart in
      elim (Bool-cases (b == ptr)) [
        | inl e ↦ rw e (
            node_at-none b _ (
              ground (
                arith,
                total-delete ptr node (at b) s.object_tree found,
                h.starts,
                IsApart-total b s.object_tree c.apart,
              )))
        | inr e ↦
            rw e (node_at-delete ptr b node s.object_tree found (λ p. ground (arith, h.starts)))
      ]

  pub release-Round :
      ltb ((h.age + 1) % 256) 2 ≡ false
      → Round s i
          (ptr ∷ [])
          (delete large_object_compare ptr s.object_tree)
          (erase ptr s.object_map)
          []
          (h.key ∷ [])
  unfolding node contains
  release-Round old =
      let found = find-node_at ptr node s.object_tree h.found c.apart in
      let step = λ (w : Node → ℕ). total-delete ptr node w s.object_tree found in
      record {
        consistent = record {
          apart = IsApart-delete ptr s.object_tree c.apart;
          whole = omega (arith, step (odd_bytes s.page_size_log2), c.whole);
          mapped = λ a. ground (
            arith,
            step (at a),
            h.starts,
            c.mapped a,
            count-erase a ptr s.object_map,
            c.mapped ptr,
            total_of_node_at ptr node s.object_tree h.found,
          );
        };
        nodes = λ b. gone b ∙ aged_at ptr b node none s.object_tree h.found (rw old refl);
        holes = λ a. ground (arith, step (hole_at i a), h.class, h.starts);
        others = λ j a ne. ground (arith, step (hole_at j a), h.class);
        lives = λ w z. omega (arith, step w, z h.key h.age);
        spans = λ w. omega (arith, step (λ n. w n.0));
      }

aged_once :
    (p q : Bool) (o : Option Node)
    → (p ≡ true → q ≡ false)
    → let first : Option Node = if (if p then true else false) then aged o else o in
      (if q then aged first else first) ≡ (if (if p then true else q) then aged o else o)
aged_once true q o h = rw (h refl) refl
aged_once false q o h = refl

pub sum_spans-append :
    (w : LargeObject → ℕ) (xs ys : List LargeObject)
    → sum_spans w (xs ++ ys) ≡ sum_spans w xs + sum_spans w ys
sum_spans-append w [] ys = omega arith
sum_spans-append w (x ∷ xs) ys = omega (arith, sum_spans-append w xs ys)

pub then-Round :
    (s : Space) (i ptr : ℕ) (ptrs kept kept' : List ℕ) (released released' : List LargeObject)
    (tree tree' : List Node) (object_map object_map' : List ℕ)
    → count ptr ptrs ≡ 0
    → Round s i (ptr ∷ []) tree object_map kept released
    → Round (with_tree s tree object_map) i ptrs tree' object_map' kept' released'
    → Round s i (ptr ∷ ptrs) tree' object_map' (kept ++ kept') (released ++ released')
unfolding contains
then-Round s i ptr ptrs kept kept' released released' tree tree' object_map object_map' once a b =
    record {
      consistent = b.consistent;
      nodes = λ x.
          b.nodes x
          ∙ ap (λ o. if contains x ptrs then aged o else o) (a.nodes x)
          ∙ aged_once (x == ptr) (contains x ptrs) (node_at x s.object_tree)
              (λ e. contains_none x ptrs (ground (arith, e, once)));
      holes = λ x. omega (arith, a.holes x, b.holes x, count-append x kept kept');
      others = λ j x ne. b.others j x ne ∙ a.others j x ne;
      lives = λ w z. b.lives w z ∙ a.lives w z;
      spans = λ w. omega (arith, a.spans w, b.spans w, sum_spans-append w released released');
    }
