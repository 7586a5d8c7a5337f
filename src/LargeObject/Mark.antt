-- ===== src/LargeObject/Mark.antt =====
-- Marking an object, and what a write to a node's value keeps.
use whippet.Base.{
  ℕ, ◌+◌, ◌<◌, ◌≡◌, ◌≢◌, refl, subst, Option, none, some, Bool, true, false, ◌==◌, if◌then◌else◌,
  arith, count, Bool-cases, inl, inr, ◌>>=◌,
}
use whippet.LargeObject.Span.{LargeObject}
use whippet.LargeObject.Space.{
  TraceKind, live, dead, Node, Space, node_at, is_live, pages_in, lookup, contains, mark, mark_node,
}
use whippet.LargeObject.Nodes.{at, total-set_node, node_at_of_total, IsApart-set_node}
use whippet.LargeObject.Insertion.{IsApart-pos, node_at-set_node, node_at-none}
use whippet.LargeObject.Valid.{
  hole_at, live_at, live_pages, node_pages, marked_pages, odd_bytes, IsSound, IsValid,
  contains-count, contains_inv,
}

-- A pointer in the map leads to a node.
pub node_of_key :
    (s : Space) (ref : ℕ)
    → IsSound s
    → 0 < count ref s.object_map
    → (n : Node) × (node_at ref s.object_tree ≡ some n)
node_of_key s ref v h = node_at_of_total ref s.object_tree (omega (arith, v.mapped ref))

-- The mark of a live node is the space's mark, and its pages are counted.
pub record Marked (s : Space) (ref : ℕ) (s' : Space) : Type 0 where
  pub key : LargeObject
  pub old : ℕ
  pub trace : TraceKind
  pub was : node_at ref s.object_tree ≡ some (key, live old trace)
  pub unmarked : old ≢ s.marked
  pub valid : IsValid s'
  pub same_mark : s'.marked ≡ s.marked
  pub nodes :
      (b : ℕ)
      → node_at b s'.object_tree
        ≡ (if b == ref then some (key, live s.marked trace) else node_at b s.object_tree)
  pub pages :
      s'.live_pages_at_last_collection
      ≡ s.live_pages_at_last_collection + pages_in s.page_size_log2 key.size

pub data Marks (s : Space) (ref : ℕ) : Option (Bool × Space) → Type 0 where
  absent : node_at ref s.object_tree ≡ none → Marks s ref (some (false, s))
  already :
      (key : LargeObject) (trace : TraceKind)
      → node_at ref s.object_tree ≡ some (key, live s.marked trace)
      → Marks s ref (some (false, s))
  newly : (s' : Space) → Marked s ref s' → Marks s ref (some (true, s'))

mark_node-Marks :
    (s : Space) (ref : ℕ) (n : Node)
    → IsValid s
    → node_at ref s.object_tree ≡ some n
    → is_live n ≡ true
    → Marks s ref (mark_node s ref n)
unfolding mark_node is_live
mark_node-Marks s ref (key, dead age) v h l = cc
mark_node-Marks s ref (key, live m trace) v h l = elim (Bool-cases (m == s.marked)) [
  | inl e ↦
      let same : m ≡ s.marked = ground arith in
      rw e (
        Marks.already key trace
          (subst (λ t. node_at ref s.object_tree ≡ some (key, live t trace)) same h))
  | inr e ↦
      let n : Node = (key, live m trace) in
      let n' : Node = (key, live s.marked trace) in
      let step = λ (w : Node → ℕ). total-set_node w ref n n' s.object_tree h in
      rw e (
        Marks.newly _ record {
          key = key;
          old = m;
          trace = trace;
          was = h;
          unmarked = ground arith;
          valid = record {
            sound = record {
              apart =
                  IsApart-set_node ref n n' s.object_tree h refl
                    (IsApart-pos ref n s.object_tree h v.sound.apart) (omega arith) v.sound.apart;
              whole = omega (arith, step (odd_bytes s.page_size_log2), v.sound.whole);
              mapped = λ a. omega (arith, step (at a), v.sound.mapped a);
              classes = v.sound.classes;
              quarantined = λ i a. omega (arith, step (hole_at i a), v.sound.quarantined i a);
              mark_set = v.sound.mark_set;
              counted =
                  ground (arith, step (marked_pages s.page_size_log2 s.marked), v.sound.counted);
              known = omega (arith, step (node_pages s.page_size_log2), v.sound.known);
              free_le = v.sound.free_le;
              fits = v.sound.fits;
            };
            in_use = omega (arith, step (live_pages s.page_size_log2), v.in_use);
            young = λ a. omega (arith, step (live_at a), v.young a);
          };
          same_mark = refl;
          nodes = λ b. node_at-set_node b ref n n' s.object_tree h refl;
          pages = refl;
        })
]

-- Marking a live object of a valid space, or an address that is none, ends with no assertion failed: it
-- answers whether the object was there and had another mark, and then gives it the space's mark, counts
-- its pages, changes no other node and keeps the space valid.
pub mark-Marks :
    (s : Space) (ref : ℕ)
    → IsValid s
    → ((n : Node) → node_at ref s.object_tree ≡ some n → is_live n ≡ true)
    → Marks s ref (mark s ref)
unfolding mark lookup
mark-Marks s ref v l = elim (Bool-cases (contains ref s.object_map)) [
  | inl e ↦
      let (n, h) = node_of_key s ref v.sound (contains_inv ref s.object_map e) in
      rw (mark, lookup, e, h, ◌>>=◌) (mark_node-Marks s ref n v h (l n h))
  | inr e ↦
      rw (mark, lookup, e)
        (Marks.absent (
          node_at-none ref s.object_tree
            (ground (arith, v.sound.mapped ref, contains-count ref s.object_map))))
]
