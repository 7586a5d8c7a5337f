-- ===== src/LargeObject/Insertion.antt =====
-- Insertion into, search of and removal from the list of nodes, by the comparison of spans.
use Prim.Native.Nat.Ordering.{lt, eq, gt}
use whippet.Base.{
  ℕ, ◌+◌, ◌≤◌, ◌<◌, ◌≡◌, ◌≢◌, ◌⊎◌, inl, inr, refl, ap, subst, List, [], ◌∷◌, Option, none, some,
  ◌==◌, if◌then◌else◌, arith, All, All-imp, Bool-cases,
}
use native.Mathlib.Decide.{dec_lt}
use whippet.SplayTree.Order.{Ordering-cases}
use whippet.SplayTree.Contents.{find, put, delete}
use whippet.LargeObject.Span.{LargeObject, large_object_compare}
use whippet.LargeObject.Space.{Value, Node, node_at, set_node}
use whippet.LargeObject.Nodes.{total, at, end, IsApart, LiesApart, node_at-addr, starts-behind}

compare-lt : (key : ℕ) (n : Node) → key < n.0.addr → large_object_compare key n.0 ≡ lt
unfolding large_object_compare
compare-lt key n h = ground arith

compare-gt : (key : ℕ) (n : Node) → end n ≤ key → large_object_compare key n.0 ≡ gt
unfolding large_object_compare
compare-gt key n h = ground arith

compare-eq : (key : ℕ) (n : Node) → n.0.addr ≤ key → key < end n → large_object_compare key n.0 ≡ eq
unfolding large_object_compare
compare-eq key n h h' = ground arith

pub compare-eq_inv :
    (key : ℕ) (n : Node) → large_object_compare key n.0 ≡ eq → (n.0.addr ≤ key) × (key < end n)
unfolding large_object_compare
compare-eq_inv key n h = ground arith

pub compare-ne_inv :
    (key : ℕ) (n : Node) → large_object_compare key n.0 ≢ eq → (key < n.0.addr) ⊎ (end n ≤ key)
unfolding large_object_compare
compare-ne_inv key n h = ground arith

node_at-head : (m : Node) (ns : List Node) → node_at m.0.addr (m ∷ ns) ≡ some m
unfolding node_at
node_at-head m ns = ground arith

pub le-total :
    (w : Node → ℕ) (a : ℕ) (n : Node) (ns : List Node) → node_at a ns ≡ some n → w n ≤ total w ns
unfolding node_at
le-total w a n [] h = cc
le-total w a n (m ∷ ns) h = ground (arith, le-total w a n ns, λ (e : m ≡ n). ap w e)

pub IsApart-pos :
    (a : ℕ) (n : Node) (ns : List Node) → node_at a ns ≡ some n → IsApart ns → 0 < n.0.size
unfolding node_at
IsApart-pos a n [] h i = cc
IsApart-pos a n (m ∷ ns) h (p, al, r) =
    ground (arith, IsApart-pos a n ns, λ (e : m ≡ n). ap (λ (t : Node). t.0.size) e)

pub node_at-set_node :
    (b ptr : ℕ) (n n' : Node) (ns : List Node)
    → node_at ptr ns ≡ some n
    → n'.0.addr ≡ n.0.addr
    → node_at b (set_node ptr n' ns) ≡ (if b == ptr then some n' else node_at b ns)
unfolding node_at set_node
node_at-set_node b ptr n n' [] h a = cc
node_at-set_node b ptr n n' (m ∷ ns) h a =
    ground (arith, node_at-set_node b ptr n n' ns, λ (e : m ≡ n). ap (λ (t : Node). t.0.addr) e)

pub node_at-none : (a : ℕ) (ns : List Node) → total (at a) ns ≡ 0 → node_at a ns ≡ none
unfolding node_at
node_at-none a [] h = refl
node_at-none a (m ∷ ns) h = ground (arith, node_at-none a ns)

-- No node starts where a span does that lies apart.
pub LiesApart-total :
    (x : LargeObject) (ns : List Node)
    → 0 < x.size
    → LiesApart x ns
    → IsApart ns
    → total (at x.addr) ns ≡ 0
LiesApart-total x [] pos l i = refl
LiesApart-total x (m ∷ ns) pos (l, ls) (p, al, r) = ground (arith, LiesApart-total x ns pos ls r)

-- Insertion of a span that overlaps none.
module _ (x : LargeObject) (v : Value) (pos : 0 < x.size) where
  pub total-put :
      (w : Node → ℕ) (ns : List Node)
      → IsApart ns
      → LiesApart x ns
      → total w (put large_object_compare x.addr x v ns) ≡ total w ns + w (x, v)
  unfolding put large_object_compare
  total-put w [] i l = omega arith
  total-put w (n ∷ ns) (p, al, r) (a, l) = ground (arith, total-put w ns r l)

  All-put :
      (b : ℕ) (ns : List Node)
      → b ≤ x.addr
      → All (λ m. b ≤ m.0.addr) ns
      → All (λ m. b ≤ m.0.addr) (put large_object_compare x.addr x v ns)
  unfolding put large_object_compare
  All-put b [] h al = (h, tt)
  All-put b (n ∷ ns) h (a, al) = ground (arith, All-put b ns h al)

  pub IsApart-put :
      (ns : List Node)
      → IsApart ns
      → LiesApart x ns
      → IsApart (put large_object_compare x.addr x v ns)
  unfolding put large_object_compare
  IsApart-put [] i l = (pos, tt, tt)
  IsApart-put (n ∷ ns) (p, al, r) (a, l) = elim (dec_lt x.addr n.0.addr) [
    | yes below ↦
        let stop : x.addr + x.size ≤ n.0.addr = omega arith in
        rw (compare-lt x.addr n below, put)
          (pos, (stop, All-imp (λ m h. omega (arith, h, stop)) ns al), (p, al, r))
    | no above ↦
        let behind : end n ≤ x.addr = omega arith in
        rw (compare-gt x.addr n behind, put) (p, All-put (end n) ns behind al, IsApart-put ns r l)
  ]

  pub node_at-put :
      (a : ℕ) (ns : List Node)
      → IsApart ns
      → LiesApart x ns
      → node_at a (put large_object_compare x.addr x v ns)
        ≡ (if a == x.addr then some (x, v) else node_at a ns)
  unfolding put large_object_compare node_at
  node_at-put a [] i l = refl
  node_at-put a (n ∷ ns) (p, al, r) (b, l) = ground (arith, node_at-put a ns r l)

-- The node that starts at an address is the one that the comparison finds, and comes off alone.
module _ (key : ℕ) (n : Node) where
  pub find-node_at :
      (ns : List Node)
      → node_at key ns ≡ some n
      → IsApart ns
      → find large_object_compare key ns ≡ some n
  unfolding node_at find
  find-node_at [] h i = cc
  find-node_at (m ∷ ns) h (p, al, r) = elim (Bool-cases (key == m.0.addr)) [
    | inl e ↦
        let same : m ≡ n = ground arith in
        rw (compare-eq key m (ground arith) (ground arith), find) (ap some same)
    | inr e ↦
        let h' : node_at key ns ≡ some n = ground arith in
        let behind : end m ≤ key =
          omega (arith, starts-behind (end m) key n ns h' al, node_at-addr key n ns h') in
        rw (compare-gt key m behind, find) (find-node_at ns h' r)
  ]

  node_at-behind :
      (m : Node) (ns : List Node)
      → (IsApart ns → node_at n.0.addr ns ≡ some n)
      → IsApart (m ∷ ns)
      → node_at n.0.addr (m ∷ ns) ≡ some n
  unfolding node_at
  node_at-behind m ns h (p, al, r) =
      let behind = starts-behind (end m) n.0.addr n ns (h r) al in ground (arith, h r, behind)

  -- The node that the comparison finds contains the address, and is the one that starts where it does.
  pub find_inv :
      (ns : List Node)
      → find large_object_compare key ns ≡ some n
      → (n.0.addr ≤ key) × (key < end n) × (IsApart ns → node_at n.0.addr ns ≡ some n)
  unfolding find
  find_inv [] h = cc
  find_inv (m ∷ ns) h = elim (Ordering-cases (large_object_compare key m.0)) [
    | inl c ↦
        let h' : find large_object_compare key ns ≡ some n = ground arith in
        let (lo, hi, found) = find_inv ns h' in (lo, hi, node_at-behind m ns found)
    | inr (inl c) ↦
        let same : m ≡ n = ground arith in
        (
          ground (arith, compare-eq_inv key m c, ap (λ (t : Node). t.0.addr) same),
          ground (arith, compare-eq_inv key m c, ap end same),
          λ i. subst (λ t. node_at t.0.addr (m ∷ ns) ≡ some t) same (node_at-head m ns),
        )
    | inr (inr c) ↦
        let h' : find large_object_compare key ns ≡ some n = ground arith in
        let (lo, hi, found) = find_inv ns h' in (lo, hi, node_at-behind m ns found)
  ]

  pub total-delete :
      (w : Node → ℕ) (ns : List Node)
      → find large_object_compare key ns ≡ some n
      → total w (delete large_object_compare key ns) + w n ≡ total w ns
  unfolding find delete
  total-delete w [] h = cc
  total-delete w (m ∷ ns) h = ground (arith, total-delete w ns, ap (λ (t : Option Node). t) h)

All-delete :
    (b key : ℕ) (ns : List Node)
    → All (λ m. b ≤ m.0.addr) ns
    → All (λ m. b ≤ m.0.addr) (delete large_object_compare key ns)
unfolding delete
All-delete b key [] al = tt
All-delete b key (m ∷ ns) al = ground (arith, All-delete b key ns)

pub IsApart-delete :
    (key : ℕ) (ns : List Node) → IsApart ns → IsApart (delete large_object_compare key ns)
unfolding delete
IsApart-delete key [] i = tt
IsApart-delete key (m ∷ ns) (p, al, r) = elim (Ordering-cases (large_object_compare key m.0)) [
  | inl c ↦ rw (c, delete) (p, All-delete (end m) key ns al, IsApart-delete key ns r)
  | inr (inl c) ↦ rw (c, delete) r
  | inr (inr c) ↦ rw (c, delete) (p, All-delete (end m) key ns al, IsApart-delete key ns r)
]

pub node_at-delete :
    (key b : ℕ) (n : Node) (ns : List Node)
    → find large_object_compare key ns ≡ some n
    → b ≢ n.0.addr
    → node_at b (delete large_object_compare key ns) ≡ node_at b ns
unfolding node_at find delete
node_at-delete key b n [] h ne = cc
node_at-delete key b n (m ∷ ns) h ne = elim (Ordering-cases (large_object_compare key m.0)) [
  | inl c ↦
      let h' : find large_object_compare key ns ≡ some n = ground arith in
      rw (c, delete) (ground (arith, node_at-delete key b n ns h' ne))
  | inr (inl c) ↦
      let same : m ≡ n = ground arith in
      rw (c, delete) (ground (arith, ap (λ (t : Node). t.0.addr) same))
  | inr (inr c) ↦
      let h' : find large_object_compare key ns ≡ some n = ground arith in
      rw (c, delete) (ground (arith, node_at-delete key b n ns h' ne))
]
