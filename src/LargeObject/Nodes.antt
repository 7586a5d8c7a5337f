-- ===== src/LargeObject/Nodes.antt =====
-- The nodes of the object tree as a list: sums of weights over them, and objects that lie apart.
use whippet.Base.{
  ℕ, ◌+◌, ◌≤◌, ◌<◌, ◌≡◌, ◌⊎◌, inl, inr, refl, ap, List, [], ◌∷◌, Option, some, ◌==◌, arith, All,
  All-imp, tick, Bool-cases,
}
use whippet.LargeObject.Span.{LargeObject}
use whippet.LargeObject.Space.{Node, node_at, set_node}

abbrev pub total : (Node → ℕ) → List Node → ℕ
total w [] = 0
total w (n ∷ ns) = w n + total w ns

-- The node starts at an address.
abbrev pub at : ℕ → Node → ℕ
at b n = tick (b == n.0.addr)

-- Nonempty spans in the order of their addresses, with no overlap.
abbrev pub end : Node → ℕ
end n = n.0.addr + n.0.size

abbrev pub IsApart : List Node → Type 0
IsApart [] = Unit
IsApart (n ∷ ns) = (0 < n.0.size) × All (λ m. end n ≤ m.0.addr) ns × IsApart ns

-- A span that overlaps none of the nodes'.
abbrev pub LiesApart : LargeObject → List Node → Type 0
LiesApart x ns = All (λ m. (end m ≤ x.addr) ⊎ (x.addr + x.size ≤ m.0.addr)) ns

pub total-set_node :
    (w : Node → ℕ) (ptr : ℕ) (n n' : Node) (ns : List Node)
    → node_at ptr ns ≡ some n
    → total w (set_node ptr n' ns) + w n ≡ total w ns + w n'
unfolding node_at set_node
total-set_node w ptr n n' [] h = cc
total-set_node w ptr n n' (m ∷ ns) h = ground (arith, total-set_node w ptr n n' ns)

pub node_at-addr : (a : ℕ) (n : Node) (ns : List Node) → node_at a ns ≡ some n → n.0.addr ≡ a
unfolding node_at
node_at-addr a n [] h = cc
node_at-addr a n (m ∷ ns) h = ground (arith, node_at-addr a n ns)

pub node_at_of_total :
    (a : ℕ) (ns : List Node) → 0 < total (at a) ns → (n : Node) × (node_at a ns ≡ some n)
unfolding node_at
node_at_of_total a [] h = absurd (omega arith)
node_at_of_total a (m ∷ ns) h = elim (Bool-cases (a == m.0.addr)) [
  | inl e ↦ (m, rw e refl)
  | inr e ↦ rw (e, node_at) (node_at_of_total a ns (ground arith))
]

pub total_of_node_at :
    (a : ℕ) (n : Node) (ns : List Node) → node_at a ns ≡ some n → 0 < total (at a) ns
unfolding node_at
total_of_node_at a n [] h = cc
total_of_node_at a n (m ∷ ns) h = ground (arith, total_of_node_at a n ns)

pub total-le :
    (v w : Node → ℕ) → ((n : Node) → v n ≤ w n) → (ns : List Node) → total v ns ≤ total w ns
total-le v w h [] = omega arith
total-le v w h (n ∷ ns) = omega (arith, h n, total-le v w h ns)

-- Where one node starts at an address, it alone counts there.
pub total_only :
    (w : Node → ℕ) (b : ℕ) (n : Node) (ns : List Node)
    → ((m : Node) → w m ≤ at b m)
    → node_at b ns ≡ some n
    → total (at b) ns ≤ 1
    → total w ns ≡ w n
unfolding node_at
total_only w b n [] le h one = cc
total_only w b n (m ∷ ns) le h one =
    ground (arith, total_only w b n ns le, total-le w (at b) le ns, le m, λ (e : m ≡ n). ap w e)

pub behind-All :
    (a : ℕ) (ns : List Node) (x : ℕ) → a < x → All (λ m. x ≤ m.0.addr) ns → total (at a) ns ≡ 0
behind-All a [] x h al = refl
behind-All a (m ∷ ns) x h al = ground (arith, behind-All a ns x h al.1)

pub IsApart-total : (a : ℕ) (ns : List Node) → IsApart ns → total (at a) ns ≤ 1
IsApart-total a [] h = omega arith
IsApart-total a (n ∷ ns) (p, al, r) =
    ground (arith, IsApart-total a ns r, λ (h : a < end n). behind-All a ns (end n) h al)

pub All-set_node :
    (b ptr : ℕ) (n n' : Node) (ns : List Node)
    → node_at ptr ns ≡ some n
    → n'.0.addr ≡ n.0.addr
    → All (λ m. b ≤ m.0.addr) ns
    → All (λ m. b ≤ m.0.addr) (set_node ptr n' ns)
unfolding node_at set_node
All-set_node b ptr n n' [] h a al = tt
All-set_node b ptr n n' (m ∷ ns) h a al =
    ground (arith, All-set_node b ptr n n' ns, ap (λ (t : Option Node). t) h)

pub starts-behind :
    (b ptr : ℕ) (n : Node) (ns : List Node)
    → node_at ptr ns ≡ some n
    → All (λ m. b ≤ m.0.addr) ns
    → b ≤ n.0.addr
unfolding node_at
starts-behind b ptr n [] h al = cc
starts-behind b ptr n (m ∷ ns) h al = ground (arith, starts-behind b ptr n ns)

pub IsApart-set_node :
    (ptr : ℕ) (n n' : Node) (ns : List Node)
    → node_at ptr ns ≡ some n
    → n'.0.addr ≡ n.0.addr
    → 0 < n'.0.size
    → n'.0.size ≤ n.0.size
    → IsApart ns
    → IsApart (set_node ptr n' ns)
unfolding node_at set_node
IsApart-set_node ptr n n' [] h a p le ap' = cc
IsApart-set_node ptr n n' (m ∷ ns) h a p le (q, al, r) = elim (Bool-cases (ptr == m.0.addr)) [
  | inl e ↦
      let same : m ≡ n = ground arith in
      let size : m.0.size ≡ n.0.size = ap (λ (t : Node). t.0.size) same in
      let addr : m.0.addr ≡ n.0.addr = ap (λ (t : Node). t.0.addr) same in
      rw e (p, All-imp (λ x h. omega (arith, h, a, le)) ns al, r)
  | inr e ↦
      let h' : node_at ptr ns ≡ some n = ground arith in
      rw (e, set_node)
        (q, All-set_node (end m) ptr n n' ns h' a al, IsApart-set_node ptr n n' ns h' a p le r)
]

pub LiesApart-set_node :
    (x : LargeObject) (ptr : ℕ) (n' : Node) (ns : List Node)
    → LiesApart x ns
    → (end n' ≤ x.addr) ⊎ (x.addr + x.size ≤ n'.0.addr)
    → LiesApart x (set_node ptr n' ns)
unfolding set_node
LiesApart-set_node x ptr n' [] l h = tt
LiesApart-set_node x ptr n' (m ∷ ns) (l, ls) h = elim (Bool-cases (ptr == m.0.addr)) [
  | inl e ↦ rw e (h, ls)
  | inr e ↦ rw (e, set_node) (l, LiesApart-set_node x ptr n' ns ls h)
]

-- The tail of a node that shrinks lies apart from all nodes.
pub LiesApart-tail :
    (ptr : ℕ) (n n' : Node) (x : LargeObject) (ns : List Node)
    → node_at ptr ns ≡ some n
    → n'.0.addr ≡ n.0.addr
    → x.addr ≡ n.0.addr + n'.0.size
    → x.addr + x.size ≡ end n
    → IsApart ns
    → LiesApart x (set_node ptr n' ns)
unfolding node_at set_node
LiesApart-tail ptr n n' x [] h a b c i = cc
LiesApart-tail ptr n n' x (m ∷ ns) h a b c (p, al, r) = elim (Bool-cases (ptr == m.0.addr)) [
  | inl e ↦
      let same : m ≡ n = ground arith in
      let stop : end m ≡ end n = ap end same in
      rw e (inl (omega arith), All-imp (λ y h'. inr (omega (arith, h'))) ns al)
  | inr e ↦
      let h' : node_at ptr ns ≡ some n = ground arith in
      rw (e, set_node)
        (
          inl (omega (arith, starts-behind (end m) ptr n ns h' al)),
          LiesApart-tail ptr n n' x ns h' a b c r,
        )
]
