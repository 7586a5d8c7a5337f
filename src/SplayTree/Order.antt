-- ===== src/SplayTree/Order.antt =====
-- The nodes in order, the linked nodes of the loop as lists, and what it means to be splayed.
use Prim.Native.Nat.Ordering.{lt, eq, gt}
use Prim.Native.Nat.{Ordering}
use mathlib.Core.List.{append_assoc, append-nil}
use whippet.Base.{◌≡◌, ◌≢◌, ◌⊎◌, inl, inr, refl, List, [], ◌∷◌, ◌++◌, Option, some, All, All-imp}
use whippet.SplayTree.{Tree, leaf, node, inorder, assemble_left, assemble_right}

pub Ordering-cases : (o : Ordering) → (o ≡ lt) ⊎ ((o ≡ eq) ⊎ (o ≡ gt))
Ordering-cases lt = inl refl
Ordering-cases eq = inr (inl refl)
Ordering-cases gt = inr (inr refl)

module _ {ℓ κ} {Span : Type ℓ} {Value : Type κ} where
  unfoldable pub left_list : List (Tree Span Value × Span × Value) → List (Span × Value)
  left_list [] = []
  left_list ((l, x, v) ∷ left) = left_list left ++ (inorder l ++ (x, v) ∷ [])

  unfoldable pub right_list : List (Span × Value × Tree Span Value) → List (Span × Value)
  right_list [] = []
  right_list ((x, v, r) ∷ right) = (x, v) ∷ (inorder r ++ right_list right)

  pub inorder-assemble_left :
      (left : List (Tree Span Value × Span × Value)) (t : Tree Span Value)
      → inorder (assemble_left left t) ≡ left_list left ++ inorder t
  unfolding assemble_left left_list
  inorder-assemble_left [] t = refl
  inorder-assemble_left ((l, x, v) ∷ left) t = simp (inorder-assemble_left left, append_assoc)

  pub inorder-assemble_right :
      (right : List (Span × Value × Tree Span Value)) (t : Tree Span Value)
      → inorder (assemble_right right t) ≡ inorder t ++ right_list right
  unfolding assemble_right right_list
  inorder-assemble_right [] t = simp append-nil
  inorder-assemble_right ((x, v, r) ∷ right) t = simp (inorder-assemble_right right, append_assoc)

  pub inorder-stop :
      (left : List (Tree Span Value × Span × Value)) (right : List (Span × Value × Tree Span Value))
      (a : Tree Span Value) (y : Span) (w : Value) (b : Tree Span Value)
      → inorder (node (assemble_left left a) y w (assemble_right right b))
        ≡ left_list left ++ (inorder (node a y w b) ++ right_list right)
  inorder-stop left right a y w b =
      simp (inorder-assemble_left, inorder-assemble_right, append_assoc)

module _ {ℓ κ} {Key : Type ℓ} {Span : Type κ} (compare : Key → Span → Ordering) where
  -- Every key that is not behind the first span is before the second.
  abbrev pub Before : Span → Span → Type ℓ
  Before x y = (key : Key) → compare key x ≢ gt → compare key y ≡ lt

  pub not_lt : (key : Key) (x y : Span) → Before x y → compare key y ≢ lt → compare key x ≡ gt
  not_lt key x y b n = elim (Ordering-cases (compare key x)) [
    | inl e ↦ absurd (n (b key (λ g. cc)))
    | inr (inl e) ↦ absurd (n (b key (λ g. cc)))
    | inr (inr e) ↦ e
  ]

  module _ {μ} {Value : Type μ} where
    abbrev pub Behind : Key → List (Span × Value) → Type 0
    Behind key es = All (λ e. compare key e.0 ≡ gt) es

    abbrev pub Ahead : Key → List (Span × Value) → Type 0
    Ahead key es = All (λ e. compare key e.0 ≡ lt) es

    abbrev pub IsOrdered : Tree Span Value → Type ℓ
    IsOrdered leaf = Unit
    IsOrdered (node l x v r) =
        All (λ e. Before e.0 x) (inorder l)
        × All (λ e. Before x e.0) (inorder r)
        × IsOrdered l
        × IsOrdered r

    -- The tree has a root with all before it behind the key and all after it ahead of the key, and
    -- holds `whole` in order.
    pub record Splayed (key : Key) (whole : List (Span × Value)) (out : Option (Tree Span Value))
        : Type (κ ⊔ μ) where
      pub left : Tree Span Value
      pub root_key : Span
      pub root_value : Value
      pub right : Tree Span Value
      pub returns : out ≡ some (node left root_key root_value right)
      pub order : inorder (node left root_key root_value right) ≡ whole
      pub behind : Behind key (inorder left)
      pub ahead : Ahead key (inorder right)

    pub Ahead-of_Before :
        (key : Key) (x : Span) (es : List (Span × Value))
        → compare key x ≢ gt
        → All (λ e. Before x e.0) es
        → Ahead key es
    Ahead-of_Before key x es n a = All-imp (λ e b. b key n) es a

    pub Behind-of_Before :
        (key : Key) (x : Span) (es : List (Span × Value))
        → compare key x ≢ lt
        → All (λ e. Before e.0 x) es
        → Behind key es
    Behind-of_Before key x es n a = All-imp (λ e b. not_lt key e.0 x b n) es a
