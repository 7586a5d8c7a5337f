-- ===== src/SplayTree/Sorted.antt =====
-- Whether a tree is ordered depends on the list of its nodes alone.
use Prim.Native.Nat.{Ordering}
use whippet.Base.{◌≡◌, List, [], ◌∷◌, ◌++◌, subst, All, All-append, All-imp, sym}
use whippet.SplayTree.{Tree, leaf, node, inorder}
use whippet.SplayTree.Order.{Before, IsOrdered}

module _ {ℓ} {A : Type ℓ} where
  pub All-split {κ} :
      (P : A → Type κ) (xs : List A) (y : A) (ys : List A)
      → All P (xs ++ y ∷ ys)
      → All P xs × P y × All P ys
  All-split P [] y ys a = (tt, a.0, a.1)
  All-split P (x ∷ xs) y ys a =
      let rest = All-split P xs y ys a.1 in ((a.0, rest.0), rest.1, rest.2)

module _ {ℓ κ} {Key : Type ℓ} {Span : Type κ} (compare : Key → Span → Ordering) where
  pub Before-trans : (x y z : Span) → Before compare x y → Before compare y z → Before compare x z
  Before-trans x y z p q key n = q key (λ g. cc (p key n))

  module _ {μ} {Value : Type μ} where
    abbrev pub IsSorted : List (Span × Value) → Type ℓ
    IsSorted [] = Unit
    IsSorted (e ∷ es) = All (λ f. Before compare e.0 f.0) es × IsSorted es

    IsSorted-join :
        (es : List (Span × Value)) (x : Span) (v : Value) (fs : List (Span × Value))
        → IsSorted es
        → All (λ e. Before compare e.0 x) es
        → All (λ f. Before compare x f.0) fs
        → IsSorted fs
        → IsSorted (es ++ (x, v) ∷ fs)
    IsSorted-join [] x v fs s a b t = (b, t)
    IsSorted-join (e ∷ es) x v fs s a b t = (
      All-append _ es ((x, v) ∷ fs) s.0 (a.0, All-imp (λ f h. Before-trans e.0 x f.0 a.0 h) fs b),
      IsSorted-join es x v fs s.1 a.1 b t,
    )

    IsSorted-split :
        (es : List (Span × Value)) (x : Span) (v : Value) (fs : List (Span × Value))
        → IsSorted (es ++ (x, v) ∷ fs)
        → IsSorted es
          × All (λ e. Before compare e.0 x) es
          × All (λ f. Before compare x f.0) fs
          × IsSorted fs
    IsSorted-split [] x v fs s = (tt, tt, s.0, s.1)
    IsSorted-split (e ∷ es) x v fs s =
        let rest = IsSorted-split es x v fs s.1 in
        let first = All-split _ es (x, v) fs s.0 in
        ((first.0, rest.0), (first.1, rest.1), rest.2, rest.3)

    pub inorder-IsSorted : (t : Tree Span Value) → IsOrdered compare t → IsSorted (inorder t)
    inorder-IsSorted leaf o = tt
    inorder-IsSorted (node l x v r) o =
        IsSorted-join (inorder l) x v (inorder r) (inorder-IsSorted l o.2) o.0 o.1
          (inorder-IsSorted r o.3)

    pub IsOrdered-of_sorted : (t : Tree Span Value) → IsSorted (inorder t) → IsOrdered compare t
    IsOrdered-of_sorted leaf s = tt
    IsOrdered-of_sorted (node l x v r) s =
        let p = IsSorted-split (inorder l) x v (inorder r) s in
        (p.1, p.2, IsOrdered-of_sorted l p.0, IsOrdered-of_sorted r p.3)

    -- A tree with the nodes of an ordered tree in the same order is ordered.
    pub IsOrdered-congr :
        (t u : Tree Span Value) → inorder u ≡ inorder t → IsOrdered compare t → IsOrdered compare u
    IsOrdered-congr t u e o = IsOrdered-of_sorted u (subst IsSorted (sym e) (inorder-IsSorted t o))
