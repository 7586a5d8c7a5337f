-- ===== src/LargeObject/Sweep.antt =====
-- Sweeping: what is not marked goes to the quarantine.
use whippet.Base.{
  ℕ, ◌+◌, ◌<◌, ◌≡◌, ◌≢◌, ◌∙◌, refl, sym, ap, subst, List, [], ◌∷◌, Option, none, some, Bool, true,
  false, ◌==◌, if◌then◌else◌, arith, count, tick, Bool-cases, inl, inr, ◌>>=◌, All, get_or, set,
  get_or-set_self, get_or-set_ne, length-set, length,
}
use whippet.Histogram.{bucket-le}
use whippet.LargeObject.Space.{
  live, dead, Node, Space, node_at, set_node, contains, add_to_freelist, size_class,
}
use whippet.LargeObject.Cycle.{sweep_node, sweep_one, sweep_all}
use whippet.LargeObject.Nodes.{at, total-set_node, node_at-addr, IsApart-set_node}
use whippet.LargeObject.Insertion.{IsApart-pos, node_at-set_node}
use whippet.LargeObject.Mark.{node_of_key}
use whippet.LargeObject.Valid.{hole_at, node_pages, marked_pages, odd_bytes, IsSound}

pub size_class-lt : (size : ℕ) → size_class size < 253
size_class-lt size = omega (arith, bucket-le 63 2 size)

-- What the sweep makes of a node.
abbrev pub swept : ℕ → Node → Node
swept marked (key, live m t) = if m == marked then (key, live m t) else (key, dead 0)
swept marked (key, dead age) = (key, dead age)

abbrev pub map_some : (Node → Node) → Option Node → Option Node
map_some f none = none
map_some f (some n) = some (f n)

abbrev pub with_nodes : Space → List Node → List (List ℕ) → Space
with_nodes s tree quarantine = record s { object_tree = tree; quarantine = quarantine }

-- A node put into its list of the quarantine.
pub get_or-push :
    (q : List (List ℕ)) (i j ptr a : ℕ)
    → i < length q
    → count a (get_or (set q i (ptr ∷ get_or q i [])) j [])
      ≡ count a (get_or q j []) + (if j == i then tick (a == ptr) else 0)
get_or-push q i j ptr a h = elim (Bool-cases (j == i)) [
  | inl e ↦
      let same : j ≡ i = ground arith in
      rw e (
        subst
          (λ k.
            count a (get_or (set q i (ptr ∷ get_or q i [])) k [])
            ≡ count a (get_or q k []) + tick (a == ptr))
          (sym same)
          (ap (count a) (get_or-set_self q i (ptr ∷ get_or q i []) [] h) ∙ (omega arith)))
  | inr e ↦
      let other : i ≢ j = λ p. ground arith in
      rw e (ap (count a) (get_or-set_ne q i j (ptr ∷ get_or q i []) [] other) ∙ (omega arith))
]

at_ptr :
    (ptr b : ℕ) (f : Node → Node) (n : Node) (ns : List Node)
    → node_at ptr ns ≡ some n
    → (if b == ptr then some (f n) else node_at b ns)
      ≡ (if b == ptr then map_some f (node_at b ns) else node_at b ns)
at_ptr ptr b f n ns h = elim (Bool-cases (b == ptr)) [
  | inl e ↦
      let same : b ≡ ptr = ground arith in
      rw e (sym (ap (λ k. map_some f (node_at k ns)) same ∙ ap (map_some f) h))
  | inr e ↦ rw e refl
]

node_at_same :
    (ptr b : ℕ) (n : Node) (ns : List Node)
    → node_at ptr ns ≡ some n
    → node_at b ns ≡ (if b == ptr then some n else node_at b ns)
node_at_same ptr b n ns h = elim (Bool-cases (b == ptr)) [
  | inl e ↦ let same : b ≡ ptr = ground arith in rw e (ap (λ k. node_at k ns) same ∙ h)
  | inr e ↦ rw e refl
]

-- The effect of one step of the sweep, or of several, on the nodes.
pub record Sweeps (s : Space) (swept_at : ℕ → Bool) (out : Option Space) : Type 0 where
  pub tree : List Node
  pub quarantine : List (List ℕ)
  pub run : out ≡ some (with_nodes s tree quarantine)
  pub sound : IsSound (with_nodes s tree quarantine)
  pub nodes :
      (b : ℕ)
      → node_at b tree ≡ (
          if swept_at b
          then map_some (swept s.marked) (node_at b s.object_tree)
          else node_at b s.object_tree)

sweep_node-Sweeps :
    (s : Space) (ptr : ℕ) (n : Node)
    → IsSound s
    → node_at ptr s.object_tree ≡ some n
    → Sweeps s (λ b. b == ptr) (sweep_node s ptr n)
unfolding sweep_node add_to_freelist
sweep_node-Sweeps s ptr (key, dead age) v h = record {
  tree = s.object_tree;
  quarantine = s.quarantine;
  run = refl;
  sound = v;
  nodes = λ b.
      node_at_same ptr b (key, dead age) s.object_tree h
      ∙ at_ptr ptr b (swept s.marked) (key, dead age) s.object_tree h;
}
sweep_node-Sweeps s ptr (key, live m t) v h = elim (Bool-cases (m == s.marked)) [
  | inl e ↦ rw e record {
    tree = s.object_tree;
    quarantine = s.quarantine;
    run = refl;
    sound = v;
    nodes = λ b.
        node_at_same ptr b (key, live m t) s.object_tree h
        ∙ ap (λ n. if b == ptr then some n else node_at b s.object_tree) (rw e refl)
        ∙ at_ptr ptr b (swept s.marked) (key, live m t) s.object_tree h;
  }
  | inr e ↦
      let n : Node = (key, live m t) in
      let n' : Node = (key, dead 0) in
      let step = λ (w : Node → ℕ). total-set_node w ptr n n' s.object_tree h in
      let addr : key.addr ≡ ptr = node_at-addr ptr n s.object_tree h in
      rw (e, h, ◌>>=◌)
        record {
          tree = set_node ptr n' s.object_tree;
          quarantine = _;
          run = refl;
          sound = record {
            apart =
                IsApart-set_node ptr n n' s.object_tree h refl
                  (IsApart-pos ptr n s.object_tree h v.apart) (omega arith) v.apart;
            whole = omega (arith, step (odd_bytes s.page_size_log2), v.whole);
            mapped = λ a. omega (arith, step (at a), v.mapped a);
            classes =
                length-set s.quarantine (size_class key.size)
                  (ptr ∷ get_or s.quarantine (size_class key.size) [])
                ∙ v.classes;
            quarantined = λ i a. ground (
              arith,
              step (hole_at i a),
              v.quarantined i a,
              get_or-push s.quarantine (size_class key.size) i ptr a
                  (omega (arith, size_class-lt key.size, v.classes)),
            );
            mark_set = v.mark_set;
            counted = ground (arith, step (marked_pages s.page_size_log2 s.marked), v.counted);
            known = omega (arith, step (node_pages s.page_size_log2), v.known);
            free_le = v.free_le;
            fits = v.fits;
          };
          nodes = λ b.
              node_at-set_node b ptr n n' s.object_tree h refl
              ∙ ap (λ n. if b == ptr then some n else node_at b s.object_tree) (rw e refl)
              ∙ at_ptr ptr b (swept s.marked) n s.object_tree h;
        }
]

pub sweep_one-Sweeps :
    (s : Space) (ptr : ℕ)
    → IsSound s
    → 0 < count ptr s.object_map
    → Sweeps s (λ b. b == ptr) (sweep_one s ptr)
unfolding sweep_one
sweep_one-Sweeps s ptr v h =
    let (n, found) = node_of_key s ptr v h in
    rw (sweep_one, found, ◌>>=◌) (sweep_node-Sweeps s ptr n v found)

swept_idem : (marked : ℕ) (n : Node) → swept marked (swept marked n) ≡ swept marked n
swept_idem marked (key, live m t) = ground arith
swept_idem marked (key, dead age) = refl

two_sweeps :
    (f : Node → Node) (p q : Bool) (o : Option Node)
    → ((n : Node) → f (f n) ≡ f n)
    → (if q then map_some f (if p then map_some f o else o) else if p then map_some f o else o)
      ≡ (if (if p then true else q) then map_some f o else o)
two_sweeps f true true none h = refl
two_sweeps f true true (some n) h = ap some (h n)
two_sweeps f true false o h = refl
two_sweeps f false q o h = refl

-- Sweeping the keys of a map, each the start of a node, in any order.
pub sweep_all-Sweeps :
    (ptrs : List ℕ) (s : Space)
    → IsSound s
    → All (λ ptr. 0 < count ptr s.object_map) ptrs
    → Sweeps s (λ b. contains b ptrs) (sweep_all ptrs s)
unfolding sweep_all contains
sweep_all-Sweeps [] s v h = record {
  tree = s.object_tree;
  quarantine = s.quarantine;
  run = refl;
  sound = v;
  nodes = λ b. refl;
}
sweep_all-Sweeps (ptr ∷ ptrs) s v (h, hs) =
    let one = sweep_one-Sweeps s ptr v h in
    let s' = with_nodes s one.tree one.quarantine in
    let rest = sweep_all-Sweeps ptrs s' one.sound hs in
    rw (one.run, ◌>>=◌)
      record {
        tree = rest.tree;
        quarantine = rest.quarantine;
        run = rest.run;
        sound = rest.sound;
        nodes = λ b.
            rest.nodes b
            ∙ ap (λ o. if contains b ptrs then map_some (swept s.marked) o else o) (one.nodes b)
            ∙ two_sweeps (swept s.marked) (b == ptr) (contains b ptrs) (node_at b s.object_tree)
                (swept_idem s.marked);
      }
