-- ===== src/SplayTree/Splay.antt =====
-- SPLAY_SPLAY ends, keeps the order of the nodes, and brings the key's place to the root.
use Prim.Native.Nat.Ordering.{lt, eq, gt}
use Prim.Native.Nat.{Ordering}
use mathlib.Core.List.{append_assoc, append-nil}
use whippet.Base.{
  ℕ, zero, suc, ◌<◌, ◌≡◌, inl, inr, refl, List, [], ◌∷◌, ◌++◌, some, ◌∙◌, arith, All-append,
}
use whippet.SplayTree.{
  Tree, leaf, node, size, inorder, assemble_left, assemble_right, splay_loop, splay,
}
use whippet.SplayTree.Order.{
  Ordering-cases, left_list, right_list, inorder-assemble_left, inorder-assemble_right,
  inorder-stop, Behind, Ahead, IsOrdered, Splayed, Ahead-of_Before, Behind-of_Before,
}

module _ {ℓ κ μ} {Key : Type ℓ} {Span : Type κ} {Value : Type μ}
    (compare : Key → Span → Ordering) where
  module _ (key : Key) (whole : List (Span × Value)) where
    -- The parts that the loop holds, and that they make up `whole`.
    record Parts (left : List (Tree Span Value × Span × Value)) (t : Tree Span Value)
        (right : List (Span × Value × Tree Span Value)) : Type (ℓ ⊔ κ ⊔ μ) where
      ordered : IsOrdered compare t
      behind : Behind compare key (left_list left)
      ahead : Ahead compare key (right_list right)
      parts : left_list left ++ (inorder t ++ right_list right) ≡ whole

    abbrev IsNode : Tree Span Value → Type 0
    IsNode leaf = ⊥
    IsNode (node l x v r) = Unit

    abbrev LoopEnds : ℕ → Type (ℓ ⊔ κ ⊔ μ)
    LoopEnds fuel =
        (left : List (Tree Span Value × Span × Value)) (t : Tree Span Value)
        (right : List (Span × Value × Tree Span Value))
        → IsNode t
        → size t < fuel
        → Parts left t right
        → Splayed compare key whole (splay_loop compare fuel key left t right)

    stop-Splayed :
        (left : List (Tree Span Value × Span × Value))
        (right : List (Span × Value × Tree Span Value)) (a : Tree Span Value) (y : Span) (w : Value)
        (b : Tree Span Value)
        → Behind compare key (left_list left)
        → Ahead compare key (right_list right)
        → left_list left ++ (inorder (node a y w b) ++ right_list right) ≡ whole
        → Behind compare key (inorder a)
        → Ahead compare key (inorder b)
        → Splayed compare key whole
            (some (node (assemble_left left a) y w (assemble_right right b)))
    stop-Splayed left right a y w b bl al e ba ab = record {
      left = assemble_left left a;
      root_key = y;
      root_value = w;
      right = assemble_right right b;
      returns = refl;
      order = inorder-stop left right a y w b ∙ e;
      behind = rw inorder-assemble_left (All-append _ (left_list left) (inorder a) bl ba);
      ahead = rw inorder-assemble_right (All-append _ (inorder b) (right_list right) ab al);
    }

    -- Linking a node, with what is behind it, under the tree R.
    link_right :
        (left : List (Tree Span Value × Span × Value)) (t : Tree Span Value) (x : Span) (v : Value)
        (r : Tree Span Value) (right : List (Span × Value × Tree Span Value))
        → compare key x ≡ lt
        → IsOrdered compare t
        → Behind compare key (left_list left)
        → Ahead compare key (inorder r)
        → Ahead compare key (right_list right)
        → left_list left ++ (inorder t ++ (x, v) ∷ (inorder r ++ right_list right)) ≡ whole
        → Parts left t ((x, v, r) ∷ right)
    unfolding right_list
    link_right left t x v r right c o bl ar al e = record {
      ordered = o;
      behind = bl;
      ahead = (c, All-append _ (inorder r) (right_list right) ar al);
      parts = e;
    }

    round_here :
        (fuel : ℕ) (left : List (Tree Span Value × Span × Value)) (l : Tree Span Value) (x : Span)
        (v : Value) (r : Tree Span Value) (right : List (Span × Value × Tree Span Value))
        → compare key x ≡ eq
        → Parts left (node l x v r) right
        → Splayed compare key whole (splay_loop compare (suc fuel) key left (node l x v r) right)
    unfolding splay_loop
    round_here fuel left l x v r right c p =
        rw (c, splay_loop)
          (stop-Splayed left right l x v r p.behind p.ahead p.parts
            (Behind-of_Before compare key x (inorder l) (λ g. cc) p.ordered.0)
            (Ahead-of_Before compare key x (inorder r) (λ g. cc) p.ordered.1))

    -- One round with the key before the node.
    round_left :
        (fuel : ℕ) (left : List (Tree Span Value × Span × Value)) (l : Tree Span Value) (x : Span)
        (v : Value) (r : Tree Span Value) (right : List (Span × Value × Tree Span Value))
        → LoopEnds fuel
        → size (node l x v r) < suc fuel
        → compare key x ≡ lt
        → Parts left (node l x v r) right
        → Splayed compare key whole (splay_loop compare (suc fuel) key left (node l x v r) right)
    unfolding splay_loop size
    round_left fuel left leaf x v r right ih f c p =
        rw (c, splay_loop)
          (stop-Splayed left right leaf x v r p.behind p.ahead p.parts tt
            (Ahead-of_Before compare key x (inorder r) (λ g. cc) p.ordered.1))
    round_left fuel left (node leaf y w lr) x v r right ih f c p =
        let ahead_r = Ahead-of_Before compare key x (inorder r) (λ g. cc) p.ordered.1 in
        let zig = ih left (node leaf y w lr) ((x, v, r) ∷ right) tt (omega arith) (
          link_right left (node leaf y w lr) x v r right c p.ordered.2 p.behind ahead_r p.ahead
            (simp append_assoc at p.parts)) in
        elim (Ordering-cases (compare key y)) [
          | inl d ↦
              let ahead_lr = Ahead-of_Before compare key y (inorder lr) (λ g. cc) p.ordered.2.1 in
              rw (c, d, splay_loop)
                (stop-Splayed left right leaf y w (node lr x v r) p.behind p.ahead
                  (simp append_assoc (simp append_assoc at p.parts)) tt
                  (All-append _ (inorder lr) ((x, v) ∷ inorder r) ahead_lr (c, ahead_r)))
          | inr (inl d) ↦ rw (c, d, splay_loop) zig
          | inr (inr d) ↦ rw (c, d, splay_loop) zig
        ]
    round_left fuel left (node (node a z u b) y w lr) x v r right ih f c p =
        let ll = node a z u b in
        let ahead_r = Ahead-of_Before compare key x (inorder r) (λ g. cc) p.ordered.1 in
        let zig = ih left (node ll y w lr) ((x, v, r) ∷ right) tt (omega arith) (
          link_right left (node ll y w lr) x v r right c p.ordered.2 p.behind ahead_r p.ahead
            (simp append_assoc (simp append_assoc at p.parts))) in
        elim (Ordering-cases (compare key y)) [
          | inl d ↦
              let ahead_lr = Ahead-of_Before compare key y (inorder lr) (λ g. cc) p.ordered.2.1 in
              rw (c, d, splay_loop)
                (ih left ll ((y, w, node lr x v r) ∷ right) tt (omega arith) (
                  link_right left ll y w (node lr x v r) right d p.ordered.2.2 p.behind
                    (All-append _ (inorder lr) ((x, v) ∷ inorder r) ahead_lr (c, ahead_r)) p.ahead
                    (simp append_assoc (simp append_assoc at p.parts))))
          | inr (inl d) ↦ rw (c, d, splay_loop) zig
          | inr (inr d) ↦ rw (c, d, splay_loop) zig
        ]

    link_left :
        (left : List (Tree Span Value × Span × Value)) (l : Tree Span Value) (x : Span) (v : Value)
        (t : Tree Span Value) (right : List (Span × Value × Tree Span Value))
        → compare key x ≡ gt
        → IsOrdered compare t
        → Behind compare key (inorder l)
        → Behind compare key (left_list left)
        → Ahead compare key (right_list right)
        → left_list left ++ (inorder l ++ (x, v) ∷ (inorder t ++ right_list right)) ≡ whole
        → Parts ((l, x, v) ∷ left) t right
    unfolding left_list
    link_left left l x v t right c o bl_l bl al e = record {
      ordered = o;
      behind =
          All-append _ (left_list left) (inorder l ++ (x, v) ∷ []) bl
            (All-append _ (inorder l) ((x, v) ∷ []) bl_l (c, tt));
      ahead = al;
      parts = simp append_assoc e;
    }

    -- One round with the key behind the node.
    round_right :
        (fuel : ℕ) (left : List (Tree Span Value × Span × Value)) (l : Tree Span Value) (x : Span)
        (v : Value) (r : Tree Span Value) (right : List (Span × Value × Tree Span Value))
        → LoopEnds fuel
        → size (node l x v r) < suc fuel
        → compare key x ≡ gt
        → Parts left (node l x v r) right
        → Splayed compare key whole (splay_loop compare (suc fuel) key left (node l x v r) right)
    unfolding splay_loop size
    round_right fuel left l x v leaf right ih f c p =
        rw (c, splay_loop)
          (stop-Splayed left right l x v leaf p.behind p.ahead p.parts
            (Behind-of_Before compare key x (inorder l) (λ g. cc) p.ordered.0) tt)
    round_right fuel left l x v (node rl y w leaf) right ih f c p =
        let behind_l = Behind-of_Before compare key x (inorder l) (λ g. cc) p.ordered.0 in
        let zig = ih ((l, x, v) ∷ left) (node rl y w leaf) right tt (omega arith) (
          link_left left l x v (node rl y w leaf) right c p.ordered.3 behind_l p.behind p.ahead
            (simp append_assoc (simp append_assoc at p.parts))) in
        elim (Ordering-cases (compare key y)) [
          | inl d ↦ rw (c, d, splay_loop) zig
          | inr (inl d) ↦ rw (c, d, splay_loop) zig
          | inr (inr d) ↦
              let behind_rl = Behind-of_Before compare key y (inorder rl) (λ g. cc) p.ordered.3.0 in
              rw (c, d, splay_loop)
                (stop-Splayed left right (node l x v rl) y w leaf p.behind p.ahead
                  (simp append_assoc (simp append_assoc at p.parts))
                  (All-append _ (inorder l) ((x, v) ∷ inorder rl) behind_l (c, behind_rl)) tt)
        ]
    round_right fuel left l x v (node rl y w (node a z u b)) right ih f c p =
        let rr = node a z u b in
        let behind_l = Behind-of_Before compare key x (inorder l) (λ g. cc) p.ordered.0 in
        let zig = ih ((l, x, v) ∷ left) (node rl y w rr) right tt (omega arith) (
          link_left left l x v (node rl y w rr) right c p.ordered.3 behind_l p.behind p.ahead
            (simp append_assoc (simp append_assoc at p.parts))) in
        elim (Ordering-cases (compare key y)) [
          | inl d ↦ rw (c, d, splay_loop) zig
          | inr (inl d) ↦ rw (c, d, splay_loop) zig
          | inr (inr d) ↦
              let behind_rl = Behind-of_Before compare key y (inorder rl) (λ g. cc) p.ordered.3.0 in
              rw (c, d, splay_loop)
                (ih ((node l x v rl, y, w) ∷ left) rr right tt (omega arith) (
                  link_left left (node l x v rl) y w rr right d p.ordered.3.3
                    (All-append _ (inorder l) ((x, v) ∷ inorder rl) behind_l (c, behind_rl))
                    p.behind p.ahead (simp append_assoc (simp append_assoc at p.parts))))
        ]

    loop-Splayed : (fuel : ℕ) → LoopEnds fuel
    loop-Splayed zero left t right n f p = absurd (omega arith)
    loop-Splayed (suc fuel) left leaf right n f p = absurd n
    loop-Splayed (suc fuel) left (node l x v r) right n f p =
        let ih = loop-Splayed fuel in
        elim (Ordering-cases (compare key x)) [
          | inl c ↦ round_left fuel left l x v r right ih f c p
          | inr (inl c) ↦ round_here fuel left l x v r right c p
          | inr (inr c) ↦ round_right fuel left l x v r right ih f c p
        ]

  -- SPLAY_SPLAY on an ordered tree that is not empty ends within one round more than there are
  -- nodes, keeps the nodes and their order, and leaves a root with all nodes before it behind the key and
  -- all nodes after it ahead of the key.
  pub splay-Splayed :
      (key : Key) (l : Tree Span Value) (x : Span) (v : Value) (r : Tree Span Value)
      → IsOrdered compare (node l x v r)
      → Splayed compare key (inorder (node l x v r)) (splay compare (node l x v r) key)
  unfolding splay
  splay-Splayed key l x v r o =
      loop-Splayed key (inorder (node l x v r)) (suc (size (node l x v r))) [] (node l x v r) [] tt
        (omega arith)
        (record {
          ordered = o;
          behind = unfold left_list in tt;
          ahead = unfold right_list in tt;
          parts = unfold left_list right_list in append-nil _;
        })
