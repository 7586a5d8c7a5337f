-- ===== src/SplayTree/Invariant.antt =====
-- Insertion and removal keep the tree ordered; SPLAY_PREVIOUS is the node before the root.
use Prim.Native.Nat.Ordering.{lt, eq, gt}
use Prim.Native.Nat.{Ordering}
use whippet.Base.{
  ◌≡◌, refl, inl, inr, List, [], ◌∷◌, ◌++◌, Option, none, some, ◌∙◌, sym, subst, All, All-imp, Bool,
  true,
}
use whippet.SplayTree.{Tree, leaf, node, inorder, rightmost, previous, insert, remove}
use whippet.SplayTree.Order.{Ordering-cases, Before, IsOrdered}
use whippet.SplayTree.Sorted.{Before-trans, IsSorted, inorder-IsSorted, IsOrdered-of_sorted}
use whippet.SplayTree.Contents.{find, put, delete, insert-put, remove-delete}

module _ {ℓ κ} {Span : Type ℓ} {Value : Type κ} where
  abbrev pub last? : List (Span × Value) → Option (Span × Value)
  last? [] = none
  last? (e ∷ []) = some e
  last? (e ∷ f ∷ es) = last? (f ∷ es)

  last?-append :
      (es : List (Span × Value)) (f : Span × Value) (fs : List (Span × Value))
      → last? (es ++ f ∷ fs) ≡ last? (f ∷ fs)
  last?-append [] f fs = refl
  last?-append (e ∷ []) f fs = refl
  last?-append (e ∷ e' ∷ es) f fs = last?-append (e' ∷ es) f fs

  rightmost-last? :
      (l : Tree Span Value) (x : Span) (v : Value) (r : Tree Span Value)
      → some (rightmost l x v r) ≡ last? (inorder (node l x v r))
  unfolding rightmost
  rightmost-last? l x v leaf = sym (last?-append (inorder l) (x, v) [])
  rightmost-last? l x v (node rl rx rv rr) =
      rightmost-last? rl rx rv rr
      ∙ last?-append (inorder rl) (rx, rv) (inorder rr)
      ∙ sym (last?-append ((x, v) ∷ inorder rl) (rx, rv) (inorder rr))
      ∙ sym (last?-append (inorder l) (x, v) (inorder rl ++ (rx, rv) ∷ inorder rr))

  -- The node before the root, on every tree that is not empty, is the last of those before it in
  -- order, and there is none exactly if the root is the first.
  pub previous-last? :
      (l : Tree Span Value) (x : Span) (v : Value) (r : Tree Span Value)
      → previous (node l x v r) ≡ last? (inorder l)
  unfolding previous
  previous-last? leaf x v r = refl
  previous-last? (node ll lx lv lr) x v r = rightmost-last? ll lx lv lr

module _ {ℓ κ μ} {Key : Type ℓ} {Span : Type κ} {Value : Type μ}
    (compare : Key → Span → Ordering) where
  -- The new span stands on one side of each that its start does not match.
  abbrev pub IsApart : Key → Span → List (Span × Value) → Type ℓ
  IsApart key x es =
      All
        (λ e.
          (compare key e.0 ≡ gt → Before compare e.0 x)
          × (compare key e.0 ≡ lt → Before compare x e.0))
        es

  All-put :
      (y : Span) (key : Key) (x : Span) (v : Value) (es : List (Span × Value))
      → Before compare y x
      → All (λ e. Before compare y e.0) es
      → All (λ e. Before compare y e.0) (put compare key x v es)
  unfolding put
  All-put y key x v [] b a = (b, tt)
  All-put y key x v (e ∷ es) b a = elim (Ordering-cases (compare key e.0)) [
    | inl c ↦ rw (c, put) (b, a)
    | inr (inl c) ↦ rw (c, put) a
    | inr (inr c) ↦ rw (c, put) (a.0, All-put y key x v es b a.1)
  ]

  All-delete :
      (y : Span) (key : Key) (es : List (Span × Value))
      → All (λ e. Before compare y e.0) es
      → All (λ e. Before compare y e.0) (delete compare key es)
  unfolding delete
  All-delete y key [] a = tt
  All-delete y key (e ∷ es) a = elim (Ordering-cases (compare key e.0)) [
    | inl c ↦ rw (c, delete) (a.0, All-delete y key es a.1)
    | inr (inl c) ↦ rw (c, delete) a.1
    | inr (inr c) ↦ rw (c, delete) (a.0, All-delete y key es a.1)
  ]

  Before-All :
      (x : Span) (e : Span × Value) (es : List (Span × Value))
      → Before compare x e.0
      → All (λ f. Before compare e.0 f.0) es
      → All (λ f. Before compare x f.0) es
  Before-All x e es b a = All-imp (λ f h. Before-trans compare x e.0 f.0 b h) es a

  put-IsSorted :
      (key : Key) (x : Span) (v : Value) (es : List (Span × Value))
      → IsApart key x es
      → IsSorted compare es
      → IsSorted compare (put compare key x v es)
  unfolding put
  put-IsSorted key x v [] a s = (tt, tt)
  put-IsSorted key x v (e ∷ es) a s = elim (Ordering-cases (compare key e.0)) [
    | inl c ↦ rw (c, put) ((a.0.1 c, Before-All x e es (a.0.1 c) s.0), s)
    | inr (inl c) ↦ rw (c, put) s
    | inr (inr c) ↦
        rw (c, put) (All-put e.0 key x v es (a.0.0 c) s.0, put-IsSorted key x v es a.1 s.1)
  ]

  delete-IsSorted :
      (key : Key) (es : List (Span × Value))
      → IsSorted compare es
      → IsSorted compare (delete compare key es)
  unfolding delete
  delete-IsSorted key [] s = tt
  delete-IsSorted key (e ∷ es) s = elim (Ordering-cases (compare key e.0)) [
    | inl c ↦ rw (c, delete) (All-delete e.0 key es s.0, delete-IsSorted key es s.1)
    | inr (inl c) ↦ rw (c, delete) s.1
    | inr (inr c) ↦ rw (c, delete) (All-delete e.0 key es s.0, delete-IsSorted key es s.1)
  ]

  -- Inserting a span that stands apart from all that its start does not match succeeds on an ordered
  -- tree and leaves an ordered tree. The tests of spans for equal bytes answer yes for each node
  -- that the start of the new span matches.
  pub insert-IsOrdered :
      (same : Span → Span → Bool) (span_start : Span → Key) (t : Tree Span Value) (x : Span)
      (v : Value)
      → IsOrdered compare t
      → All (λ e. compare (span_start x) e.0 ≡ eq → same x e.0 ≡ true) (inorder t)
      → IsApart (span_start x) x (inorder t)
      → (out : Tree Span Value) × (insert compare same span_start t x v ≡ some out)
        × IsOrdered compare out
  insert-IsOrdered same span_start t x v o h a =
      let (out, run, order) = insert-put compare same span_start t x v o h in
      let sorted = put-IsSorted (span_start x) x v (inorder t) a (inorder-IsSorted compare t o) in
      (out, run, IsOrdered-of_sorted compare out (subst (IsSorted compare) (sym order) sorted))

  -- Removing a key that some node of an ordered tree matches leaves an ordered tree.
  pub remove-IsOrdered :
      (t : Tree Span Value) (key : Key) (x : Span) (v : Value)
      → IsOrdered compare t
      → find compare key (inorder t) ≡ some (x, v)
      → (out : Tree Span Value) × (remove compare t key ≡ some (v, out)) × IsOrdered compare out
  remove-IsOrdered t key x v o h =
      let (out, run, order) = remove-delete compare t key x v o h in
      let sorted = delete-IsSorted key (inorder t) (inorder-IsSorted compare t o) in
      (out, run, IsOrdered-of_sorted compare out (subst (IsSorted compare) (sym order) sorted))
