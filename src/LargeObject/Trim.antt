-- ===== src/LargeObject/Trim.antt =====
-- A hole of the quarantine becomes an object, and gives back what it does not need.
use native.Mathlib.Nat.{mul-div_cancel, mul-mod_left, add-mul-mod_self_right, add-mul-div_right}
use native.Mathlib.Decide.{dec_lt}
use whippet.Base.{
  ℕ, ◌+◌, ◌-◌, ◌*◌, ◌/◌, ◌^◌, ◌%◌, ◌≤◌, ◌<◌, ◌≡◌, ◌≢◌, ◌∙◌, refl, sym, ap, subst, List, [], ◌∷◌,
  Option, some, false, ltb, ◌==◌, if◌then◌else◌, arith, lt→ltb, ==_refl, count, tick, Bool-cases,
  inl, inr, ◌>>=◌, get_or, set, length, get_or-set_self, get_or-set_ne, length-set,
}
use whippet.SplayTree.Contents.{put}
use whippet.LargeObject.Span.{LargeObject, large_object_compare}
use whippet.LargeObject.Space.{
  TraceKind, live, dead, Node, Space, node_at, set_node, add, erase, size_class, add_to_freelist,
}
use whippet.Histogram.{two_pow_pos}
use whippet.LargeObject.Alloc.{trim_tail}
use whippet.LargeObject.Nodes.{total, at, total-set_node, IsApart-set_node, LiesApart-tail}
use whippet.LargeObject.Insertion.{
  IsApart-pos, le-total, LiesApart-total, total-put, IsApart-put, node_at-put,
}
use whippet.LargeObject.Valid.{
  hole_at, node_pages, marked_pages, odd_bytes, IsSound, count-erase, count-add, Unlinked,
}
use whippet.LargeObject.Sweep.{get_or-push, size_class-lt}
use whippet.LargeObject.Round.{Hole, hole-Hole}

-- A list of the quarantine without one node.
get_or-take :
    (q : List (List ℕ)) (i j ptr a : ℕ)
    → 0 < count ptr (get_or q i [])
    → i < length q
    → count a (get_or (set q i (erase ptr (get_or q i []))) j [])
        + (if j == i then tick (a == ptr) else 0)
      ≡ count a (get_or q j [])
get_or-take q i j ptr a held h = elim (Bool-cases (j == i)) [
  | inl e ↦
      let same : i ≡ j = ground arith in
      rw e (
        subst
          (λ k.
            count a (get_or (set q i (erase ptr (get_or q i []))) k []) + tick (a == ptr)
            ≡ count a (get_or q k []))
          same
          (omega (
            arith,
            ap (count a) (get_or-set_self q i (erase ptr (get_or q i [])) [] h),
            count-erase a ptr (get_or q i []) held,
          )))
  | inr e ↦
      let other : i ≢ j = λ p. ground arith in
      rw e (omega (arith, ap (count a) (get_or-set_ne q i j (erase ptr (get_or q i [])) [] other)))
]

-- The hole is unlinked and is a live object of its whole size.
abbrev pub revived : Space → ℕ → LargeObject → TraceKind → List (List ℕ) → Space
revived s ptr key trace quarantine = record s {
  quarantine = quarantine;
  object_tree = set_node ptr (key, live 0 trace) s.object_tree;
}

same_key :
    (s : Space) (ptr : ℕ) (k l : LargeObject) (a b : ℕ)
    → node_at ptr s.object_tree ≡ some (k, dead a)
    → node_at ptr s.object_tree ≡ some (l, dead b)
    → l ≡ k
same_key s ptr k l a b h h' = cc

pub revived-IsSound :
    (s : Space) (i ptr : ℕ) (trace : TraceKind) (quarantine : List (List ℕ))
    → IsSound s
    → (h : Hole i ptr s.object_tree) → Unlinked ptr s.quarantine quarantine
    → IsSound (revived s ptr h.key trace quarantine)
revived-IsSound s i ptr trace quarantine v h u =
    let n : Node = (h.key, dead h.age) in
    let n' : Node = (h.key, live 0 trace) in
    let step = λ (w : Node → ℕ). total-set_node w ptr n n' s.object_tree h.found in
    let hole =
      hole-Hole u.class ptr s.object_tree v.apart
        (omega (arith, v.quarantined u.class ptr, u.held)) in
    let class : u.class ≡ size_class h.key.size =
      hole.class
      ∙ ap (λ (k : LargeObject). size_class k.size)
          (same_key s ptr h.key hole.key h.age hole.age h.found hole.found) in
    record {
      apart =
          IsApart-set_node ptr n n' s.object_tree h.found refl
            (IsApart-pos ptr n s.object_tree h.found v.apart) (omega arith) v.apart;
      whole = omega (arith, step (odd_bytes s.page_size_log2), v.whole);
      mapped = λ a. omega (arith, step (at a), v.mapped a);
      classes =
          ap length u.result
          ∙ length-set s.quarantine u.class (erase ptr (get_or s.quarantine u.class []))
          ∙ v.classes;
      quarantined = λ j a.
          ap (λ q. count a (get_or q j [])) u.result
          ∙ ground (
            arith,
            step (hole_at j a),
            v.quarantined j a,
            class,
            h.starts,
            get_or-take s.quarantine u.class j ptr a u.held
                (omega (arith, class, v.classes, size_class-lt h.key.size)),
          );
      mark_set = v.mark_set;
      counted =
          ground (arith, step (marked_pages s.page_size_log2 s.marked), v.counted, v.mark_set);
      known = omega (arith, step (node_pages s.page_size_log2), v.known);
      free_le = v.free_le;
      fits = v.fits;
    }

-- A span of whole pages split in two.
pub page_split :
    (log2 npages size whole : ℕ)
    → size ≡ npages * 2 ^ log2
    → size ≤ whole
    → whole % 2 ^ log2 ≡ 0
    → ((whole - size) % 2 ^ log2 ≡ 0)
      × (whole / 2 ^ log2 ≡ (whole - size) / 2 ^ log2 + npages)
      × (size % 2 ^ log2 ≡ 0)
      × (size / 2 ^ log2 ≡ npages)
page_split log2 npages size whole e le h =
    let parts : whole ≡ (whole - size) + npages * 2 ^ log2 = omega (arith, e) in
    let p = two_pow_pos log2 in
    (
      omega (
        arith,
        ap (λ (t : ℕ). t % 2 ^ log2) parts,
        add-mul-mod_self_right (whole - size) npages (2 ^ log2),
      ),
      omega (arith, ap (λ (t : ℕ). t / 2 ^ log2) parts, add-mul-div_right (whole - size) npages p),
      omega (arith, ap (λ (t : ℕ). t % 2 ^ log2) e, mul-mod_left npages (2 ^ log2)),
      omega (arith, ap (λ (t : ℕ). t / 2 ^ log2) e, mul-div_cancel npages p),
    )

-- The tail given back: the nodes are as before, less the hole and with its two parts.
pub record Trimmed (s : Space) (n m : Node) (out : Option Space) : Type 0 where
  pub tree : List Node
  pub object_map : List ℕ
  pub quarantine : List (List ℕ)
  pub run :
      out ≡ some (record s { object_tree = tree; object_map = object_map; quarantine = quarantine })
  pub sound :
      IsSound (record s { object_tree = tree; object_map = object_map; quarantine = quarantine })
  pub lives :
      (w : Node → ℕ)
      → ((key : LargeObject) (age : ℕ) → w (key, dead age) ≡ 0)
      → total w tree + w n ≡ total w s.object_tree + w m
  pub bytes : total (λ x. x.0.size) tree ≡ total (λ x. x.0.size) s.object_tree

module _ (s : Space) (ptr : ℕ) (key : LargeObject) (trace : TraceKind) (npages size : ℕ)
    (v : IsSound s) (found : node_at ptr s.object_tree ≡ some (key, live 0 trace))
    (pages : size ≡ npages * 2 ^ s.page_size_log2) (pos : 0 < size) where
  whole_key : key.size % 2 ^ s.page_size_log2 ≡ 0
  whole_key = omega (
    arith,
    v.whole,
    le-total (odd_bytes s.page_size_log2) ptr (key, live 0 trace) s.object_tree found,
  )

  trim-Trimmed :
      size < key.size
      → Trimmed s
          (key, live 0 trace)
          (record { addr = key.addr; size = size }, live 0 trace)
          (trim_tail s ptr (key, live 0 trace) size)
  unfolding trim_tail add_to_freelist
  trim-Trimmed smaller =
      let n : Node = (key, live 0 trace) in
      let k : LargeObject = record { addr = key.addr; size = size } in
      let m : Node = (k, live 0 trace) in
      let x : LargeObject = record { addr = key.addr + size; size = key.size - size } in
      let shrunk = set_node ptr m s.object_tree in
      let tree = put large_object_compare x.addr x (dead 0) shrunk in
      let xpos : 0 < x.size = omega arith in
      let apart = IsApart-set_node ptr n m s.object_tree found refl pos (omega arith) v.apart in
      let tail = LiesApart-tail ptr n m x s.object_tree found refl refl (omega arith) v.apart in
      let there : node_at x.addr tree ≡ some (x, dead 0) =
        node_at-put x (dead 0) xpos x.addr shrunk apart tail ∙ rw (==_refl x.addr) refl in
      let apart' = IsApart-put x (dead 0) xpos shrunk apart tail in
      let fresh : total (at x.addr) s.object_tree ≡ 0 = omega (
        arith,
        total-set_node (at x.addr) ptr n m s.object_tree found,
        LiesApart-total x shrunk xpos tail apart,
      ) in
      let sums : (w : Node → ℕ)
          → total w (set_node x.addr (x, dead 0) tree) + w n
            ≡ total w s.object_tree + w m + w (x, dead 0) =
        λ w. omega (
          arith,
          total-set_node w ptr n m s.object_tree found,
          total-put x (dead 0) xpos w shrunk apart tail,
          total-set_node w x.addr (x, dead 0) (x, dead 0) tree there,
        ) in
      let split = page_split s.page_size_log2 npages size key.size pages (omega arith) whole_key in
      rw (lt→ltb size key.size smaller, trim_tail, add_to_freelist, there, ◌>>=◌)
        record {
          tree = set_node x.addr (x, dead 0) tree;
          object_map = add x.addr s.object_map;
          quarantine =
              set s.quarantine (size_class x.size)
                (x.addr ∷ get_or s.quarantine (size_class x.size) []);
          run = refl;
          sound = record {
            apart =
                IsApart-set_node x.addr (x, dead 0) (x, dead 0) tree there refl xpos (omega arith)
                  apart';
            whole = omega (arith, sums (odd_bytes s.page_size_log2), v.whole, split);
            mapped = λ a. omega (
              arith,
              sums (at a),
              v.mapped a,
              v.mapped x.addr,
              fresh,
              count-add a x.addr s.object_map,
            );
            classes =
                length-set s.quarantine (size_class x.size)
                  (x.addr ∷ get_or s.quarantine (size_class x.size) [])
                ∙ v.classes;
            quarantined = λ i a. ground (
              arith,
              sums (hole_at i a),
              v.quarantined i a,
              get_or-push s.quarantine (size_class x.size) i x.addr a
                  (omega (arith, size_class-lt x.size, v.classes)),
            );
            mark_set = v.mark_set;
            counted =
                ground
                  (arith, sums (marked_pages s.page_size_log2 s.marked), v.counted, v.mark_set);
            known = omega (arith, sums (node_pages s.page_size_log2), v.known, split);
            free_le = v.free_le;
            fits = v.fits;
          };
          lives = λ w z. omega (arith, sums w, z x 0);
          bytes = omega (arith, sums (λ x. x.0.size));
        }

  no_trim-Trimmed :
      size ≡ key.size
      → Trimmed s
          (key, live 0 trace)
          (record { addr = key.addr; size = size }, live 0 trace)
          (trim_tail s ptr (key, live 0 trace) size)
  unfolding trim_tail
  no_trim-Trimmed e =
      let all : ltb size key.size ≡ false = ground arith in
      let same : key ≡ record { addr = key.addr; size = size } =
        ap (λ (t : ℕ). record key { size = t }) (sym e) in
      rw (all, trim_tail)
        record {
          tree = s.object_tree;
          object_map = s.object_map;
          quarantine = s.quarantine;
          run = refl;
          sound = v;
          lives = λ w z. ap (λ (k : LargeObject). total w s.object_tree + w (k, live 0 trace)) same;
          bytes = refl;
        }

  pub trim_tail-Trimmed :
      size ≤ key.size
      → Trimmed s
          (key, live 0 trace)
          (record { addr = key.addr; size = size }, live 0 trace)
          (trim_tail s ptr (key, live 0 trace) size)
  trim_tail-Trimmed le = elim (dec_lt size key.size) [
    | yes smaller ↦ trim-Trimmed smaller
    | no equal ↦ no_trim-Trimmed (omega arith)
  ]
