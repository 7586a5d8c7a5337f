-- ===== src/SplayTree.antt =====
-- src/splay-tree.h: the top-down splay tree, generic in spans, keys and values as the header's
-- macros are. The tree is owned by its root pointer and no node is shared, so a node is a
-- constructor, and `free` and `malloc` leave no trace. `none` is GC_CRASH, a failed GC_ASSERT, or
-- fuel that ran out.
pub mod Order
pub mod Splay
pub mod Sorted
pub mod Contents
pub mod Invariant
mod Tests
use Prim.Native.Nat.Ordering.{lt, eq, gt}
use Prim.Native.Nat.{Ordering}
use whippet.Base.{
  ℕ, zero, suc, ◌+◌, ◌≡◌, List, [], ◌∷◌, ◌++◌, Option, none, some, Bool, true, false, ◌>>=◌, ◌>>◌,
}

-- `leaf` is NULL.
pub data Tree {ℓ κ} (Span : Type ℓ) (Value : Type κ) : Type (ℓ ⊔ κ) where
  leaf : Tree Span Value
  node : Tree Span Value → Span → Value → Tree Span Value → Tree Span Value

module _ {ℓ κ} {Span : Type ℓ} {Value : Type κ} where
  pub size : Tree Span Value → ℕ
  size leaf = 0
  size (node l x v r) = size l + size r + 1

  abbrev pub inorder : Tree Span Value → List (Span × Value)
  inorder leaf = []
  inorder (node l x v r) = inorder l ++ (x, v) ∷ inorder r

  -- The nodes linked under `dummy.right`, the last first, each with its left subtree: setting
  -- `left->right` of the last one completes the tree L of the algorithm.
  pub assemble_left : List (Tree Span Value × Span × Value) → Tree Span Value → Tree Span Value
  assemble_left [] t = t
  assemble_left ((l, x, v) ∷ left) t = assemble_left left (node l x v t)

  -- The nodes linked under `dummy.left`, the last first, each with its right subtree.
  pub assemble_right : List (Span × Value × Tree Span Value) → Tree Span Value → Tree Span Value
  assemble_right [] t = t
  assemble_right ((x, v, r) ∷ right) t = assemble_right right (node t x v r)

  pub node_new : Span → Value → Tree Span Value
  node_new x v = node leaf x v leaf

  -- The loop of SPLAY_PREVIOUS: down the right links.
  pub rightmost : Tree Span Value → Span → Value → Tree Span Value → Span × Value
  rightmost l x v leaf = (x, v)
  rightmost l x v (node rl rx rv rr) = rightmost rl rx rv rr

  unfoldable pub previous : Tree Span Value → Option (Span × Value)
  unfolding rightmost
  previous leaf = none
  previous (node leaf x v r) = none
  previous (node (node ll lx lv lr) x v r) = some (rightmost ll lx lv lr)

  -- `tree->root->right = right`.
  abbrev pub set_right : Tree Span Value → Tree Span Value → Tree Span Value
  set_right leaf right = leaf
  set_right (node l x v r) right = node l x v right

module _ {ℓ κ μ} {Key : Type ℓ} {Span : Type κ} {Value : Type μ}
    (compare : Key → Span → Ordering) where
  -- The loop of SPLAY_SPLAY at `current`, with the nodes linked so far on either side.
  pub splay_loop :
      ℕ
      → Key
      → List (Tree Span Value × Span × Value)
      → Tree Span Value
      → List (Span × Value × Tree Span Value)
      → Option (Tree Span Value)
  splay_loop zero key left current right = none
  splay_loop (suc fuel) key left leaf right = none
  splay_loop (suc fuel) key left (node l x v r) right =
      let stop = λ (a : Tree Span Value) (y : Span) (w : Value) (b : Tree Span Value).
        some (node (assemble_left left a) y w (assemble_right right b)) in
      elim (compare key x) [
        | eq ↦ stop l x v r
        | lt ↦ elim l [
          | leaf ↦ stop leaf x v r
          | node ll y w lr ↦ elim (compare key y) [
            | lt ↦ elim ll [
              | leaf ↦ stop leaf y w (node lr x v r)
              | node a z u b ↦
                  splay_loop fuel key left (node a z u b) ((y, w, node lr x v r) ∷ right)
            ]
            | _ ↦ splay_loop fuel key left (node ll y w lr) ((x, v, r) ∷ right)
          ]
        ]
        | gt ↦ elim r [
          | leaf ↦ stop l x v leaf
          | node rl y w rr ↦ elim (compare key y) [
            | gt ↦ elim rr [
              | leaf ↦ stop (node l x v rl) y w leaf
              | node a z u b ↦
                  splay_loop fuel key ((node l x v rl, y, w) ∷ left) (node a z u b) right
            ]
            | _ ↦ splay_loop fuel key ((l, x, v) ∷ left) (node rl y w rr) right
          ]
        ]
      ]

  -- SPLAY_SPLAY: the new root; NULL only on the empty tree.
  pub splay : Tree Span Value → Key → Option (Tree Span Value)
  splay leaf key = some leaf
  splay (node l x v r) key = splay_loop (suc (size (node l x v r))) key [] (node l x v r) []

  -- SPLAY_LOOKUP returns the root if it matches, and leaves the tree splayed.
  unfoldable pub root_match : Key → Tree Span Value → Option (Span × Value)
  root_match key leaf = none
  root_match key (node l x v r) = elim (compare key x) [ eq ↦ some (x, v) | _ ↦ none ]

  pub lookup : Tree Span Value → Key → Option (Option (Span × Value) × Tree Span Value)
  lookup t key = do root ← splay t key; some (root_match key root, root)

  pub contains : Tree Span Value → Key → Option (Bool × Tree Span Value)
  contains t key = do
    (found, root) ← lookup t key
    some (elim found [ none ↦ false | some _ ↦ true ], root)

  -- SPLAY_INSERT behind its splay, at the new root. The assertion of the equal case, that the spans
  -- are the same bytes, is `same`.
  pub insert_root :
      (Span → Span → Bool) → Span → Value → Ordering → Tree Span Value → Option (Tree Span Value)
  insert_root same key value c leaf = none
  insert_root same key value lt (node l x v r) = some (node l key value (node leaf x v r))
  insert_root same key value eq (node l x v r) = elim (same key x) [
    | true ↦ some (node l x value r)
    | false ↦ none
  ]
  insert_root same key value gt (node l x v r) = some (node (node l x v leaf) key value r)

  pub root_compare : Key → Tree Span Value → Ordering
  root_compare key leaf = eq
  root_compare key (node l x v r) = compare key x

  pub insert :
      (Span → Span → Bool)
      → (Span → Key)
      → Tree Span Value
      → Span
      → Value
      → Option (Tree Span Value)
  insert same span_start leaf key value = some (node_new key value)
  insert same span_start (node l x v r) key value = do
    let scalar = span_start key
    root ← splay (node l x v r) scalar
    insert_root same key value (root_compare scalar root) root

  -- SPLAY_REMOVE: the root after the splay goes, and its left subtree, splayed by the same key,
  -- takes its right subtree. It removes the root also where that does not match the key.
  pub remove_root : Key → Tree Span Value → Option (Value × Tree Span Value)
  remove_root key leaf = none
  remove_root key (node leaf x v r) = some (v, r)
  remove_root key (node (node ll y w lr) x v r) = do
    root ← splay (node ll y w lr) key
    some (v, set_right root r)

  pub remove : Tree Span Value → Key → Option (Value × Tree Span Value)
  remove leaf key = none
  remove (node l x v r) key = do root ← splay (node l x v r) key; remove_root key root
