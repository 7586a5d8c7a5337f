-- ===== src/LargeObject/Valid.antt =====
-- What holds of the space between its operations: the map, the quarantine, the nursery and the counts of
-- pages agree with the nodes of the tree.
use whippet.Base.{
  ℕ, zero, suc, ◌+◌, ◌%◌, ◌^◌, ◌≤◌, ◌<◌, ◌≡◌, inl, inr, refl, ap, List, [], ◌∷◌, some, true, false,
  ◌==◌, if◌then◌else◌, arith, count, tick, get_or, set, length, Bool-cases,
}
use whippet.Base.Word.{word_mod}
use whippet.LargeObject.Space.{
  live, dead, Node, Space, pages_in, size_class, contains, add, erase, unlink,
}
use whippet.LargeObject.Nodes.{total, at, IsApart}

-- A dead node of a size class that starts at an address.
abbrev pub hole_at : ℕ → ℕ → Node → ℕ
hole_at i a (key, live m t) = 0
hole_at i a (key, dead age) = if i == size_class key.size then tick (a == key.addr) else 0

abbrev pub live_at : ℕ → Node → ℕ
live_at a (key, live m t) = tick (a == key.addr)
live_at a (key, dead age) = 0

-- Pages of a node, of a live node, and of a live node with a mark.
abbrev pub node_pages : ℕ → Node → ℕ
node_pages log2 n = pages_in log2 n.0.size

abbrev pub live_pages : ℕ → Node → ℕ
live_pages log2 (key, live m t) = pages_in log2 key.size
live_pages log2 (key, dead age) = 0

abbrev pub marked_pages : ℕ → ℕ → Node → ℕ
marked_pages log2 marked (key, live m t) = if m == marked then pages_in log2 key.size else 0
marked_pages log2 marked (key, dead age) = 0

-- The bytes of a node past its last whole page.
abbrev pub odd_bytes : ℕ → Node → ℕ
odd_bytes log2 n = n.0.size % 2 ^ log2

-- Objects lie apart and have whole pages; the map holds their starts, and the quarantine the dead ones,
-- each in the list of its size class, and the pages of marked objects have been counted.
pub record IsSound (s : Space) : Type 0 where
  pub apart : IsApart s.object_tree
  pub whole : total (odd_bytes s.page_size_log2) s.object_tree ≡ 0
  pub mapped : (a : ℕ) → count a s.object_map ≡ total (at a) s.object_tree
  pub classes : length s.quarantine ≡ 253
  pub quarantined :
      (i a : ℕ) → count a (get_or s.quarantine i []) ≡ total (hole_at i a) s.object_tree
  pub mark_set : s.marked % 2 ≡ 1
  pub counted :
      s.live_pages_at_last_collection ≡ total (marked_pages s.page_size_log2 s.marked) s.object_tree
  pub known : total (node_pages s.page_size_log2) s.object_tree ≤ s.total_pages
  pub free_le : s.free_pages ≤ s.total_pages
  pub fits : s.total_pages < word_mod

-- Besides, no more pages count as in use than live objects have, and the nursery holds live objects.
pub record IsValid (s : Space) : Type 0 where
  pub sound : IsSound s
  pub in_use : s.total_pages ≤ s.free_pages + total (live_pages s.page_size_log2) s.object_tree
  pub young : (a : ℕ) → count a s.nursery ≤ total (live_at a) s.object_tree

-- Keys of a map or set, counted.
pub contains-count : (a : ℕ) (keys : List ℕ) → 0 < count a keys → contains a keys ≡ true
unfolding contains
contains-count a [] h = absurd (omega arith)
contains-count a (b ∷ keys) h = ground (arith, contains-count a keys)

pub contains_none : (a : ℕ) (keys : List ℕ) → count a keys ≡ 0 → contains a keys ≡ false
unfolding contains
contains_none a [] h = refl
contains_none a (b ∷ keys) h = ground (arith, contains_none a keys)

pub contains_inv : (a : ℕ) (keys : List ℕ) → contains a keys ≡ true → 0 < count a keys
unfolding contains
contains_inv a [] h = cc
contains_inv a (b ∷ keys) h = ground (arith, contains_inv a keys)

pub count-add :
    (a b : ℕ) (keys : List ℕ)
    → count b keys ≡ 0
    → count a (add b keys) ≡ count a keys + tick (a == b)
unfolding add
count-add a b keys h = rw (contains_none b keys h) (omega arith)

pub count-erase :
    (a b : ℕ) (keys : List ℕ)
    → 0 < count b keys
    → count a (erase b keys) + tick (a == b) ≡ count a keys
unfolding erase
count-erase a b [] h = absurd (omega arith)
count-erase a b (c ∷ keys) h = ground (arith, count-erase a b keys)

-- Unlinking takes a node off one list that holds it.
pub record Unlinked (ptr : ℕ) (q : List (List ℕ)) (q' : List (List ℕ)) : Type 0 where
  pub class : ℕ
  pub held : 0 < count ptr (get_or q class [])
  pub result : q' ≡ set q class (erase ptr (get_or q class []))

pub unlink-Unlinked :
    (ptr i : ℕ) (q : List (List ℕ))
    → 0 < count ptr (get_or q i [])
    → (q' : List (List ℕ)) × (unlink ptr q ≡ some q') × Unlinked ptr q q'
unfolding unlink
unlink-Unlinked ptr i [] h = absurd (omega arith)
unlink-Unlinked ptr i (b ∷ q) h = elim (Bool-cases (contains ptr b)) [
  | inl e ↦ (
    erase ptr b ∷ q,
    rw (e, unlink) refl,
    record { class = 0; held = contains_inv ptr b e; result = refl },
  )
  | inr e ↦
      let (j, h') = later ptr i b q e h in
      let (q', run, u) = unlink-Unlinked ptr j q h' in
      (
        b ∷ q',
        rw (e, unlink, run) refl,
        record { class = suc u.class; held = u.held; result = ap (λ t. b ∷ t) u.result },
      )
]
  where
    later :
        (ptr i : ℕ) (b : List ℕ) (q : List (List ℕ))
        → contains ptr b ≡ false
        → 0 < count ptr (get_or (b ∷ q) i [])
        → (j : ℕ) × (0 < count ptr (get_or q j []))
    later ptr zero b q e h = cc (contains-count ptr b h)
    later ptr (suc j) b q e h = (j, h)
