-- ===== src/SplayTree/Tests.antt =====
-- Runs of the splay tree on large objects, and its theorems at concrete trees.
use whippet.Base.{ℕ, ◌≡◌, refl, inl, inr, ◌+◌, ◌<◌, ◌≤◌, some, arith}
use whippet.LargeObject.Span.{
  LargeObject, large_object_compare, large_object_span_start, large_object_same, Before-iff,
  compare_apart,
}
use whippet.SplayTree.{
  Tree, leaf, node, inorder, size, assemble_left, assemble_right, splay, splay_loop, lookup, insert,
  remove,
}
use whippet.SplayTree.Order.{Before, IsOrdered, Splayed}
use whippet.SplayTree.Splay.{splay-Splayed}
use whippet.SplayTree.Contents.{find, put, delete, lookup-find, insert-put, remove-delete}
use whippet.SplayTree.Invariant.{insert-IsOrdered}

abbrev span : ℕ → ℕ → LargeObject
span addr size = record { addr = addr; size = size }

abbrev left : Tree LargeObject ℕ
left = node leaf (span 100 10) 1 leaf

abbrev right : Tree LargeObject ℕ
right = node (node leaf (span 300 10) 3 leaf) (span 400 10) 4 leaf

abbrev tree : Tree LargeObject ℕ
tree = node left (span 200 10) 2 right

apart :
    (a b : LargeObject) → 0 < a.size → a.addr + a.size ≤ b.addr → Before large_object_compare a b
apart a b pos h = (Before-iff a b pos).1 h

tree-IsOrdered : IsOrdered large_object_compare tree
tree-IsOrdered = (
  (apart _ _ (omega arith) (omega arith), tt),
  (apart _ _ (omega arith) (omega arith), (apart _ _ (omega arith) (omega arith), tt)),
  (tt, tt, tt, tt),
  ((apart _ _ (omega arith) (omega arith), tt), tt, (tt, tt, tt, tt), tt),
)

splay_interior :
    splay large_object_compare tree 305
    ≡ some (node (node left (span 200 10) 2 leaf) (span 300 10) 3 (node leaf (span 400 10) 4 leaf))
unfolding splay splay_loop size assemble_left assemble_right large_object_compare
splay_interior = refl

splay-Splayed_example :
    Splayed large_object_compare 305 (inorder tree) (splay large_object_compare tree 305)
splay-Splayed_example =
    splay-Splayed large_object_compare 305 left (span 200 10) 2 right tree-IsOrdered

lookup-find_example :
    (root : Tree LargeObject ℕ) × (lookup large_object_compare tree 305
      ≡ some (find large_object_compare 305 (inorder tree), root))
    × (inorder root ≡ inorder tree)
lookup-find_example = lookup-find large_object_compare 305 tree tree-IsOrdered

insert-put_example :
    (out : Tree LargeObject ℕ) × (insert large_object_compare large_object_same
        large_object_span_start tree
        (span 250 10)
        9
      ≡ some out)
    × (inorder out ≡ put large_object_compare 250 (span 250 10) 9 (inorder tree))
unfolding large_object_span_start large_object_compare large_object_same
insert-put_example =
    insert-put large_object_compare large_object_same large_object_span_start tree (span 250 10) 9
      tree-IsOrdered (ground arith)

remove-delete_example :
    (out : Tree LargeObject ℕ) × (remove large_object_compare tree 305 ≡ some (3, out))
    × (inorder out ≡ delete large_object_compare 305 (inorder tree))
unfolding find large_object_compare
remove-delete_example =
    remove-delete large_object_compare tree 305 (span 300 10) 3 tree-IsOrdered refl

insert-IsOrdered_example :
    (out : Tree LargeObject ℕ) × (insert large_object_compare large_object_same
        large_object_span_start tree
        (span 250 10)
        9
      ≡ some out)
    × IsOrdered large_object_compare out
unfolding large_object_span_start large_object_compare large_object_same
insert-IsOrdered_example =
    insert-IsOrdered large_object_compare large_object_same large_object_span_start tree
      (span 250 10) 9 tree-IsOrdered (ground arith)
      (
        compare_apart _ _ (omega arith) (omega arith) (inl (omega arith)),
        (
          compare_apart _ _ (omega arith) (omega arith) (inl (omega arith)),
          (
            compare_apart _ _ (omega arith) (omega arith) (inr (omega arith)),
            (compare_apart _ _ (omega arith) (omega arith) (inr (omega arith)), tt),
          ),
        ),
      )
