-- ===== src/SplayTree/Contents.antt =====
-- Lookup, insertion and removal against the list of the tree's nodes in order.
use Prim.Native.Nat.Ordering.{lt, eq, gt}
use Prim.Native.Nat.{Ordering}
use mathlib.Core.List.{append_assoc}
use whippet.Base.{
  ◌≡◌, inl, inr, refl, List, [], ◌∷◌, ◌++◌, Option, none, some, ◌∙◌, sym, ap, subst, arith, All,
  ◌>>=◌, Bool, true,
}
use whippet.SplayTree.{
  Tree, leaf, node, inorder, node_new, splay, lookup, root_match, root_compare, insert_root, insert,
  remove, remove_root, set_right,
}
use whippet.SplayTree.Order.{Ordering-cases, Behind, Ahead, IsOrdered}
use whippet.SplayTree.Sorted.{All-split, IsOrdered-congr}
use whippet.SplayTree.Splay.{splay-Splayed}

module _ {ℓ κ μ} {Key : Type ℓ} {Span : Type κ} {Value : Type μ}
    (compare : Key → Span → Ordering) where
  -- The first node that matches the key, in order.
  unfoldable pub find : Key → List (Span × Value) → Option (Span × Value)
  find key [] = none
  find key (e ∷ es) = elim (compare key e.0) [ eq ↦ some e | _ ↦ find key es ]

  -- The list with an entry put in its place, or with its value replaced.
  unfoldable pub put : Key → Span → Value → List (Span × Value) → List (Span × Value)
  put key x v [] = (x, v) ∷ []
  put key x v (e ∷ es) = elim (compare key e.0) [
    | lt ↦ (x, v) ∷ e ∷ es
    | eq ↦ (e.0, v) ∷ es
    | gt ↦ e ∷ put key x v es
  ]

  -- The list without the first node that matches the key.
  unfoldable pub delete : Key → List (Span × Value) → List (Span × Value)
  delete key [] = []
  delete key (e ∷ es) = elim (compare key e.0) [ eq ↦ es | _ ↦ e ∷ delete key es ]

  module _ (key : Key) where
    find-Behind :
        (es fs : List (Span × Value)) → Behind compare key es → find key (es ++ fs) ≡ find key fs
    unfolding find
    find-Behind [] fs b = refl
    find-Behind (e ∷ es) fs b = rw b.0 (find-Behind es fs b.1)

    find-Ahead : (es : List (Span × Value)) → Ahead compare key es → find key es ≡ none
    unfolding find
    find-Ahead [] a = refl
    find-Ahead (e ∷ es) a = rw (a.0, find) (find-Ahead es a.1)

    put-Behind :
        (x : Span) (v : Value) (es fs : List (Span × Value))
        → Behind compare key es
        → put key x v (es ++ fs) ≡ es ++ put key x v fs
    unfolding put
    put-Behind x v [] fs b = refl
    put-Behind x v (e ∷ es) fs b = rw b.0 (ap (λ t. e ∷ t) (put-Behind x v es fs b.1))

    put-Ahead :
        (x : Span) (v : Value) (es : List (Span × Value))
        → Ahead compare key es
        → put key x v es ≡ (x, v) ∷ es
    unfolding put
    put-Ahead x v [] a = refl
    put-Ahead x v (e ∷ es) a = rw (a.0, put)

    delete-Behind :
        (es fs : List (Span × Value))
        → Behind compare key es
        → delete key (es ++ fs) ≡ es ++ delete key fs
    unfolding delete
    delete-Behind [] fs b = refl
    delete-Behind (e ∷ es) fs b = rw b.0 (ap (λ t. e ∷ t) (delete-Behind es fs b.1))

    -- What is both behind and ahead of a key is empty.
    no_nodes :
        (t : Tree Span Value)
        → Behind compare key (inorder t)
        → Ahead compare key (inorder t)
        → t ≡ leaf
    no_nodes leaf b a = refl
    no_nodes (node l x v r) b a =
        let p = (All-split _ (inorder l) (x, v) (inorder r) b).1 in
        let q = (All-split _ (inorder l) (x, v) (inorder r) a).1 in cc

    root_match-find :
        (l : Tree Span Value) (x : Span) (v : Value) (r : Tree Span Value)
        → Behind compare key (inorder l)
        → Ahead compare key (inorder r)
        → root_match compare key (node l x v r) ≡ find key (inorder (node l x v r))
    unfolding root_match find
    root_match-find l x v r b a =
        rw (find-Behind (inorder l) ((x, v) ∷ inorder r) b) (elim (Ordering-cases (compare key x)) [
          | inl c ↦ rw (c, find, root_match) (sym (find-Ahead (inorder r) a))
          | inr (inl c) ↦ rw (c, find, root_match)
          | inr (inr c) ↦ rw (c, find, root_match) (sym (find-Ahead (inorder r) a))
        ])

    -- Looking a key up in an ordered tree ends, answers with the first of its nodes, in order, that
    -- matches the key, or with none if no node does, and leaves a tree with the same nodes in the
    -- same order.
    pub lookup-find :
        (t : Tree Span Value)
        → IsOrdered compare t
        → (root : Tree Span Value) × (lookup compare t key ≡ some (find key (inorder t), root))
          × (inorder root ≡ inorder t)
    unfolding lookup
    lookup-find leaf o = (leaf, unfold splay root_match find in refl, refl)
    lookup-find (node l x v r) o =
        let s = splay-Splayed compare key l x v r o in
        let root = node s.left s.root_key s.root_value s.right in
        let found = root_match-find s.left s.root_key s.root_value s.right s.behind s.ahead in
        (
          root,
          rw (s.returns, ◌>>=◌) (ap (λ q. some (q, root)) (found ∙ ap (find key) s.order)),
          s.order,
        )

    insert_root-put :
        (same : Span → Span → Bool) (x : Span) (v : Value) (l : Tree Span Value) (y : Span)
        (w : Value) (r : Tree Span Value)
        → (compare key y ≡ eq → same x y ≡ true)
        → Behind compare key (inorder l)
        → Ahead compare key (inorder r)
        → (out : Tree Span Value) × (insert_root compare same x v
              (root_compare compare key (node l y w r))
              (node l y w r)
            ≡ some out)
          × (inorder out ≡ put key x v (inorder (node l y w r)))
    unfolding insert_root root_compare put
    insert_root-put same x v l y w r h b a =
        let e = put-Behind x v (inorder l) ((y, w) ∷ inorder r) b in
        elim (Ordering-cases (compare key y)) [
          | inl c ↦ (node l x v (node leaf y w r), rw (c, insert_root), rw e (rw (c, put)))
          | inr (inl c) ↦ (node l y v r, rw (c, insert_root, h c), rw e (rw (c, put)))
          | inr (inr c) ↦ (
            node (node l y w leaf) x v r,
            rw (c, insert_root),
            rw e (rw (c, put) (rw (put-Ahead x v (inorder r) a) (append_assoc (inorder l) _ _))),
          )
        ]

    remove_root-delete :
        (l : Tree Span Value) (y : Span) (w : Value) (r : Tree Span Value)
        → IsOrdered compare l
        → compare key y ≡ eq
        → Behind compare key (inorder l)
        → (out : Tree Span Value) × (remove_root compare key (node l y w r) ≡ some (w, out))
          × (inorder out ≡ delete key (inorder (node l y w r)))
    unfolding remove_root delete
    remove_root-delete leaf y w r o c b = (r, refl, rw (c, delete))
    remove_root-delete (node ll x v lr) y w r o c b =
        let s = splay-Splayed compare key ll x v lr o in
        let root = node s.left s.root_key s.root_value s.right in
        let behind : Behind compare key (inorder root) = rw s.order b in
        let parts =
          All-split _ (inorder s.left) (s.root_key, s.root_value) (inorder s.right) behind in
        let bare = no_nodes s.right parts.2 s.ahead in
        let e = delete-Behind (inorder (node ll x v lr)) ((y, w) ∷ inorder r) b in
        let order =
          subst
            (λ t.
              inorder s.left ++ (s.root_key, s.root_value) ∷ inorder t ≡ inorder (node ll x v lr))
            bare s.order in
        (
          set_right root r,
          rw (s.returns, ◌>>=◌),
          rw e (rw (c, delete) (rw (← order) (sym (append_assoc (inorder s.left) _ _)))),
        )

  root_match_inv :
      (l : Tree Span Value) (y : Span) (w : Value) (r : Tree Span Value) (key : Key) (x : Span)
      (v : Value)
      → root_match compare key (node l y w r) ≡ some (x, v)
      → (compare key y ≡ eq) × (w ≡ v)
  unfolding root_match
  root_match_inv l y w r key x v h = ground arith

  -- Inserting into an ordered tree ends and leaves the nodes, in order, with the entry put in its
  -- place, or with its value replaced where a node matches the start of the new span. The tests of
  -- spans for equal bytes answer yes for each node that matches, as the code asserts.
  pub insert-put :
      (same : Span → Span → Bool) (span_start : Span → Key) (t : Tree Span Value) (x : Span)
      (v : Value)
      → IsOrdered compare t
      → All (λ e. compare (span_start x) e.0 ≡ eq → same x e.0 ≡ true) (inorder t)
      → (out : Tree Span Value) × (insert compare same span_start t x v ≡ some out)
        × (inorder out ≡ put (span_start x) x v (inorder t))
  unfolding insert put node_new
  insert-put same span_start leaf x v o h = (node leaf x v leaf, refl, refl)
  insert-put same span_start (node l y w r) x v o h =
      let key = span_start x in
      let s = splay-Splayed compare key l y w r o in
      let root = node s.left s.root_key s.root_value s.right in
      let h' : All (λ e. compare key e.0 ≡ eq → same x e.0 ≡ true) (inorder root) = rw s.order h in
      let (out, run, order) =
        insert_root-put key same x v s.left s.root_key s.root_value s.right
          (All-split _ (inorder s.left) (s.root_key, s.root_value) (inorder s.right) h').1 s.behind
          s.ahead in
      (out, rw (s.returns, ◌>>=◌) run, order ∙ ap (put key x v) s.order)

  -- Removing a key that some node of an ordered tree matches ends, returns the value of the first
  -- such node in order, and leaves all other nodes, in order.
  pub remove-delete :
      (t : Tree Span Value) (key : Key) (x : Span) (v : Value)
      → IsOrdered compare t
      → find key (inorder t) ≡ some (x, v)
      → (out : Tree Span Value) × (remove compare t key ≡ some (v, out))
        × (inorder out ≡ delete key (inorder t))
  unfolding remove find
  remove-delete leaf key x v o h = cc
  remove-delete (node l y w r) key x v o h =
      let s = splay-Splayed compare key l y w r o in
      let root = node s.left s.root_key s.root_value s.right in
      let ordered = IsOrdered-congr compare (node l y w r) root s.order o in
      let found = root_match-find key s.left s.root_key s.root_value s.right s.behind s.ahead in
      let (hit, value) =
        root_match_inv s.left s.root_key s.root_value s.right key x v
          (found ∙ ap (find key) s.order ∙ h) in
      let (out, run, order) =
        remove_root-delete key s.left s.root_key s.root_value s.right ordered.2 hit s.behind in
      (
        out,
        rw (s.returns, ◌>>=◌) (run ∙ ap (λ (u : Value). some (u, out)) value),
        order ∙ ap (delete key) s.order,
      )
