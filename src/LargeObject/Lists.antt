-- ===== src/LargeObject/Lists.antt =====
-- The lists of the quarantine, class by class, and the whole round.
use whippet.Base.{
  ℕ, zero, suc, ◌+◌, ◌/◌, ◌^◌, ◌<◌, ◌≡◌, ◌≢◌, ◌∙◌, refl, sym, ap, subst, List, [], ◌∷◌, ◌++◌,
  Option, none, some, Bool, true, false, leb, ◌==◌, if◌then◌else◌, arith, count, Bool-cases, inl,
  inr, ◌>>=◌, get_or, length,
}
use whippet.LargeObject.Span.{LargeObject}
use whippet.LargeObject.Space.{live, dead, Node, Space, node_at, contains, size_class}
use whippet.LargeObject.Cycle.{process_lists, process_quarantine}
use whippet.LargeObject.Nodes.{total, IsApart, node_at-addr, total_only, IsApart-total}
use whippet.LargeObject.Valid.{
  hole_at, live_at, live_pages, marked_pages, IsValid, contains-count, contains_none,
}
use whippet.LargeObject.Sweep.{size_class-lt}
use whippet.LargeObject.Quarantine.{process_list-Processed}
use whippet.LargeObject.Round.{
  aged, with_tree, Consistent, sum_spans, sum_spans-append, hole_at-le-at,
}

-- A round over the lists from a class on makes the dead nodes of these classes older.
abbrev aged_from : ℕ → Option Node → Option Node
aged_from i none = none
aged_from i (some (key, live m t)) = some (key, live m t)
aged_from i (some (key, dead age)) =
    if leb i (size_class key.size) then aged (some (key, dead age)) else some (key, dead age)

aged_from_end : (i : ℕ) (o : Option Node) → i ≡ 253 → o ≡ aged_from i o
aged_from_end i none h = refl
aged_from_end i (some (key, live m t)) h = refl
aged_from_end i (some (key, dead age)) h = ground (arith, h, size_class-lt key.size)

aged_from_next :
    (i : ℕ) (held : Bool) (o : Option Node)
    → ((key : LargeObject) (age : ℕ) → o ≡ some (key, dead age) → held ≡ (i == size_class key.size))
    → aged_from (suc i) (if held then aged o else o) ≡ aged_from i o
aged_from_next i true none h = refl
aged_from_next i false none h = refl
aged_from_next i true (some (key, live m t)) h = refl
aged_from_next i false (some (key, live m t)) h = refl
aged_from_next i held (some (key, dead age)) h = rw (h key age refl) (ground (arith))

record ProcessedLists (s : Space) (i : ℕ) (bs : List (List ℕ))
    (out : Option (List (List ℕ) × List LargeObject × Space)) : Type 0 where
  tree : List Node
  object_map : List ℕ
  kepts : List (List ℕ)
  released : List LargeObject
  run : out ≡ some (kepts, released, with_tree s tree object_map)
  consistent : Consistent (with_tree s tree object_map)
  nodes : (b : ℕ) → node_at b tree ≡ aged_from i (node_at b s.object_tree)
  below : (k a : ℕ) → k < i → total (hole_at k a) tree ≡ total (hole_at k a) s.object_tree
  above : (j a : ℕ) → count a (get_or kepts j []) ≡ total (hole_at (i + j) a) tree
  classes : length kepts ≡ length bs
  lives :
      (w : Node → ℕ)
      → ((key : LargeObject) (age : ℕ) → w (key, dead age) ≡ 0)
      → total w tree ≡ total w s.object_tree
  spans :
      (w : LargeObject → ℕ)
      → total (λ n. w n.0) tree + sum_spans w released ≡ total (λ n. w n.0) s.object_tree

held-class :
    (s : Space) (i x : ℕ) (b : List ℕ) (key : LargeObject) (age : ℕ)
    → IsApart s.object_tree
    → count x b ≡ total (hole_at i x) s.object_tree
    → node_at x s.object_tree ≡ some (key, dead age)
    → contains x b ≡ (i == size_class key.size)
held-class s i x b key age ap' h found =
    let only =
      total_only (hole_at i x) x (key, dead age) s.object_tree (hole_at-le-at i x) found
        (IsApart-total x s.object_tree ap') in
    let start = node_at-addr x (key, dead age) s.object_tree found in
    elim (Bool-cases (i == size_class key.size)) [
      | inl e ↦ rw e (contains-count x b (ground (arith, h, only, start, e)))
      | inr e ↦ rw e (contains_none x b (ground (arith, h, only, e)))
    ]

-- The classes from one on are that class and those from the next on.
shifted :
    (P : ℕ → ℕ → Type 0) (i : ℕ) → P 0 i → ((j : ℕ) → P (suc j) (suc i + j)) → (j : ℕ) → P j (i + j)
shifted P i now next zero = subst (P 0) (omega arith) now
shifted P i now next (suc j) =
    let e : suc i + j ≡ i + suc j = omega arith in subst (P (suc j)) e (next j)

process_lists-Processed :
    (bs : List (List ℕ)) (i : ℕ) (s : Space)
    → Consistent s
    → i + length bs ≡ 253
    → ((j a : ℕ) → count a (get_or bs j []) ≡ total (hole_at (i + j) a) s.object_tree)
    → ProcessedLists s i bs (process_lists bs s)
unfolding process_lists
process_lists-Processed [] i s c n h = record {
  tree = s.object_tree;
  object_map = s.object_map;
  kepts = [];
  released = [];
  run = refl;
  consistent = c;
  nodes = λ b. aged_from_end i (node_at b s.object_tree) (omega arith);
  below = λ k a lt. refl;
  above = λ j a. h j a;
  classes = refl;
  lives = λ w z. refl;
  spans = λ w. omega arith;
}
process_lists-Processed (b ∷ bs) i s c n h =
    let zero_ : i + 0 ≡ i = omega arith in
    let here =
      λ (a : ℕ). subst (λ k. count a b ≡ total (hole_at k a) s.object_tree) zero_ (h 0 a) in
    let p = process_list-Processed i b s c (λ a. omega (arith, here a)) in
    let s' = with_tree s p.tree p.object_map in
    let rest = process_lists-Processed bs (suc i) s' p.round.consistent (omega arith) (λ j a.
      let e : i + suc j ≡ suc i + j = omega arith in
      subst (λ k. count a (get_or bs j []) ≡ total (hole_at k a) s.object_tree) e (h (suc j) a)
      ∙ sym (p.round.others (suc i + j) a (omega arith))) in
    record {
      tree = rest.tree;
      object_map = rest.object_map;
      kepts = p.kept ∷ rest.kepts;
      released = p.released ++ rest.released;
      run = rw (p.run, ◌>>=◌, rest.run) refl;
      consistent = rest.consistent;
      nodes = λ x.
          rest.nodes x
          ∙ ap (aged_from (suc i)) (p.round.nodes x)
          ∙ aged_from_next i (contains x b) (node_at x s.object_tree)
              (λ key age. held-class s i x b key age c.apart (here x));
      below = λ k a lt.
          let less : k < suc i = omega arith in
          let other : k ≢ i = omega arith in rest.below k a less ∙ p.round.others k a other;
      above = λ j a.
          shifted
            (λ j k. count a (get_or (p.kept ∷ rest.kepts) j []) ≡ total (hole_at k a) rest.tree) i
            (omega (arith, p.round.holes a, here a, rest.below i a)) (λ j. rest.above j a) j;
      classes = ap suc rest.classes;
      lives = λ w z. rest.lives w z ∙ p.round.lives w z;
      spans = λ w.
          omega (arith, rest.spans w, p.round.spans w, sum_spans-append w p.released rest.released);
    }

-- Which node stands where, of the live ones alone.
abbrev pub live_only : Option Node → Option Node
live_only none = none
live_only (some (key, live m t)) = some (key, live m t)
live_only (some (key, dead age)) = none

-- What a round of the quarantine does to the space.
pub record Processes (s : Space) (out : Option (List LargeObject × Space)) : Type 0 where
  pub released : List LargeObject
  pub space : Space
  pub run : out ≡ some (released, space)
  pub valid : IsValid space
  pub nodes : (b : ℕ) → node_at b space.object_tree ≡ aged (node_at b s.object_tree)
  pub spans :
      (w : LargeObject → ℕ)
      → total (λ n. w n.0) space.object_tree + sum_spans w released
        ≡ total (λ n. w n.0) s.object_tree
  pub kept :
      (space.total_pages ≡ s.total_pages)
      × (space.free_pages ≡ s.free_pages)
      × (space.live_pages_at_last_collection ≡ s.live_pages_at_last_collection)
      × (space.marked ≡ s.marked)
      × (space.nursery ≡ s.nursery)
      × (space.page_size_log2 ≡ s.page_size_log2)

aged_from-aged : (o : Option Node) → aged_from 0 o ≡ aged o
aged_from-aged none = refl
aged_from-aged (some (key, live m t)) = refl
aged_from-aged (some (key, dead age)) = ground arith

-- Processing the quarantine of a valid space ends with no assertion failed and keeps the space valid.
-- Live objects stay as they are; a dead one that has not waited for a round yet is kept and is a round
-- older; all others leave the tree, the map and the quarantine, and exactly their spans are released.
pub process_quarantine-Processes : (s : Space) → IsValid s → Processes s (process_quarantine s)
unfolding process_quarantine
process_quarantine-Processes s v =
    let c : Consistent s = record {
      apart = v.sound.apart;
      whole = v.sound.whole;
      mapped = v.sound.mapped;
    } in
    let p = process_lists-Processed s.quarantine 0 s c (omega (arith, v.sound.classes)) (λ j a.
      let e : j ≡ 0 + j = omega arith in
      subst (λ k. count a (get_or s.quarantine j []) ≡ total (hole_at k a) s.object_tree) e
        (v.sound.quarantined j a)) in
    let log2 = s.page_size_log2 in
    let lives = p.lives in
    record {
      released = p.released;
      space = record s { object_tree = p.tree; object_map = p.object_map; quarantine = p.kepts };
      run = rw (p.run, ◌>>=◌) refl;
      valid = record {
        sound = record {
          apart = p.consistent.apart;
          whole = p.consistent.whole;
          mapped = p.consistent.mapped;
          classes = p.classes ∙ v.sound.classes;
          quarantined = λ i a.
              let e : 0 + i ≡ i = omega arith in
              subst (λ k. count a (get_or p.kepts i []) ≡ total (hole_at k a) p.tree) e
                (p.above i a);
          mark_set = v.sound.mark_set;
          counted = v.sound.counted ∙ sym (lives (marked_pages log2 s.marked) (λ key age. refl));
          known = omega (arith, p.spans (λ x. x.size / 2 ^ log2), v.sound.known);
          free_le = v.sound.free_le;
          fits = v.sound.fits;
        };
        in_use = omega (arith, lives (live_pages log2) (λ key age. refl), v.in_use);
        young = λ a. omega (arith, lives (live_at a) (λ key age. refl), v.young a);
      };
      nodes = λ b. p.nodes b ∙ aged_from-aged (node_at b s.object_tree);
      spans = p.spans;
      kept = (refl, refl, refl, refl, refl, refl);
    }
