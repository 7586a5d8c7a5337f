-- ===== src/LargeObject/FindHole.antt =====
-- The search of the quarantine for a hole that is large enough.
use whippet.Base.{
  ℕ, zero, suc, ◌≤◌, ◌<◌, ◌≡◌, ap, List, [], ◌∷◌, Option, none, some, ltb, ◌==◌, arith, count,
  All-of_count, Bool-cases, inl, inr, ◌>>=◌, get_or, All, drop, ◌+◌, ◌∙◌, refl,
}
use whippet.LargeObject.Space.{Node, node_at}
use whippet.LargeObject.Alloc.{first_fit, find_hole}

-- What the search of a freelist finds.
data Fits (tree : List Node) (size : ℕ) (b : List ℕ) : Option (Option ℕ) → Type 0 where
  fits :
      (ptr : ℕ) (n : Node)
      → 0 < count ptr b
      → node_at ptr tree ≡ some n
      → size ≤ n.0.size
      → Fits tree size b (some (some ptr))
  too_small :
      ((ptr : ℕ) (n : Node) → 0 < count ptr b → node_at ptr tree ≡ some n → n.0.size < size)
      → Fits tree size b (some none)

abbrev pub HasNode : List Node → ℕ → Type 0
HasNode tree ptr = (n : Node) × (node_at ptr tree ≡ some n)

passed :
    (tree : List Node) (size ptr : ℕ) (ptrs : List ℕ) (n : Node) (out : Option (Option ℕ))
    → node_at ptr tree ≡ some n
    → n.0.size < size
    → Fits tree size ptrs out
    → Fits tree size (ptr ∷ ptrs) out
passed tree size ptr ptrs n out h small (fits p m held found le) =
    Fits.fits p m (omega arith) found le
passed tree size ptr ptrs n out h small (too_small f) = Fits.too_small (λ p m held found.
    elim (Bool-cases (p == ptr)) [
      | inl e ↦
          let same : p ≡ ptr = ground arith in
          let both : m ≡ n = cc in omega (arith, ap (λ (t : Node). t.0.size) both)
      | inr e ↦ f p m (ground (arith, held)) found
    ])

first_fit-Fits :
    (tree : List Node) (size : ℕ) (ptrs : List ℕ)
    → All (HasNode tree) ptrs
    → Fits tree size ptrs (first_fit tree size ptrs)
unfolding first_fit
first_fit-Fits tree size [] h = Fits.too_small (λ p m held found. absurd (omega arith))
first_fit-Fits tree size (ptr ∷ ptrs) ((n, found), hs) = elim (Bool-cases (ltb n.0.size size)) [
  | inl e ↦
      rw (found, ◌>>=◌, e)
        (passed tree size ptr ptrs n _ found (ground arith) (first_fit-Fits tree size ptrs hs))
  | inr e ↦ rw (found, ◌>>=◌, e) (Fits.fits ptr n (ground arith) found (ground arith))
]

-- What the search of several freelists finds.
pub data Finds (tree : List Node) (size : ℕ) (bs : List (List ℕ)) : Option (Option ℕ) → Type 0 where
  found_in :
      (j ptr : ℕ) (n : Node)
      → 0 < count ptr (get_or bs j [])
      → node_at ptr tree ≡ some n
      → size ≤ n.0.size
      → Finds tree size bs (some (some ptr))
  none_found :
      ((j ptr : ℕ) (n : Node)
        → 0 < count ptr (get_or bs j [])
        → node_at ptr tree ≡ some n
        → n.0.size < size)
      → Finds tree size bs (some none)

find_next :
    (tree : List Node) (size : ℕ) (b : List ℕ) (bs : List (List ℕ)) (out : Option (Option ℕ))
    → ((ptr : ℕ) (n : Node) → 0 < count ptr b → node_at ptr tree ≡ some n → n.0.size < size)
    → Finds tree size bs out
    → Finds tree size (b ∷ bs) out
find_next tree size b bs out small (found_in j ptr n held found le) =
    Finds.found_in (suc j) ptr n held found le
find_next tree size b bs out small (none_found f) = Finds.none_found (go f)
  where
    go :
        ((j ptr : ℕ) (n : Node)
          → 0 < count ptr (get_or bs j [])
          → node_at ptr tree ≡ some n
          → n.0.size < size)
        → (j ptr : ℕ) (n : Node) → 0 < count ptr (get_or (b ∷ bs) j [])
        → node_at ptr tree ≡ some n
        → n.0.size < size
    go f zero = small
    go f (suc j) = f j

find_here :
    (tree : List Node) (size : ℕ) (b : List ℕ) (bs : List (List ℕ)) (out : Option (Option ℕ))
    → Fits tree size b out
    → Finds tree size bs (find_hole tree size bs)
    → Finds tree size
        (b ∷ bs)
        (out >>= λ f. elim f [ some ptr ↦ some (some ptr) | none ↦ find_hole tree size bs ])
find_here tree size b bs out (fits ptr n held found le) rest = Finds.found_in 0 ptr n held found le
find_here tree size b bs out (too_small f) rest = find_next tree size b bs _ f rest

pub find_hole-Finds :
    (tree : List Node) (size : ℕ) (bs : List (List ℕ))
    → All (All (HasNode tree)) bs
    → Finds tree size bs (find_hole tree size bs)
unfolding find_hole
find_hole-Finds tree size [] h = Finds.none_found (λ j p m held found. absurd (omega arith))
find_hole-Finds tree size (b ∷ bs) (h, hs) =
    find_here tree size b bs _ (first_fit-Fits tree size b h) (find_hole-Finds tree size bs hs)

-- Where the lists hold only nodes, the search meets no other pointer.
pub All-nodes :
    (tree : List Node) (bs : List (List ℕ))
    → ((j a : ℕ) → 0 < count a (get_or bs j []) → HasNode tree a)
    → All (All (HasNode tree)) bs
All-nodes tree [] h = tt
All-nodes tree (b ∷ bs) h =
    (All-of_count (HasNode tree) b (h 0), All-nodes tree bs (λ j a held. h (suc j) a held))

pub get_or-drop : (c j : ℕ) (bs : List (List ℕ)) → get_or (drop c bs) j [] ≡ get_or bs (c + j) []
get_or-drop zero j bs = let e : j ≡ 0 + j = omega arith in ap (λ (k : ℕ). get_or bs k []) e
get_or-drop (suc c) j [] = refl
get_or-drop (suc c) j (b ∷ bs) =
    let e : suc (c + j) ≡ suc c + j = omega arith in
    get_or-drop c j bs ∙ ap (λ (k : ℕ). get_or (b ∷ bs) k []) e
