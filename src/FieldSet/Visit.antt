-- ===== src/FieldSet/Visit.antt =====
-- Visiting a buffer of the remembered set, which drops edges in place.
use native.Mathlib.Numerals.{add-one}
use whippet.Base.{
  ℕ, zero, suc, ◌+◌, ◌-◌, ◌≤◌, ◌<◌, ◌≡◌, ◌≢◌, ap, refl, List, [], ◌∷◌, Option, some, Bool, true,
  false, ltb, ◌==◌, inl, inr, if◌then◌else◌, arith, length, length-set, get_or, set, take, count,
  count-set, count-take_last, tick, Bool-cases, ◌>>=◌, lt→ltb,
}
use whippet.FieldSet.{
  edge_buffer_capacity, EdgeBuffer, FieldSet, size, replace_by_last, visit_loop, visit_edge_buffer,
  release_buffer,
}

count-take-suc :
    (x : ℕ) (es : List ℕ) (i : ℕ)
    → i < length es
    → count x (take (suc i) es) ≡ count x (take i es) + tick (x == get_or es i 0)
count-take-suc x [] i h = absurd (omega arith)
count-take-suc x (e ∷ es) zero h = omega arith
count-take-suc x (e ∷ es) (suc i) h = omega (arith, count-take-suc x es i (omega arith))

count-take_add :
    (x : ℕ) (es : List ℕ) (i : ℕ)
    → i < length es
    → count x (take (i + 1) es) ≡ count x (take i es) + tick (x == get_or es i 0)
count-take_add x es i h = rw (add-one i) (count-take-suc x es i h)

count-take_le : (x : ℕ) (es : List ℕ) (i : ℕ) → count x (take i es) ≤ count x es
count-take_le x es zero = omega arith
count-take_le x [] (suc i) = omega arith
count-take_le x (e ∷ es) (suc i) = omega (arith, count-take_le x es i)

take_all : (es : List ℕ) (i : ℕ) → length es ≤ i → take i es ≡ es
take_all [] zero h = refl
take_all [] (suc i) h = refl
take_all (e ∷ es) zero h = absurd (omega arith)
take_all (e ∷ es) (suc i) h = rw (take_all es i (omega arith))

length-take_le : (es : List ℕ) (n : ℕ) → n ≤ length es → length (take n es) ≡ n
length-take_le es zero h = refl
length-take_le [] (suc n) h = absurd (omega arith)
length-take_le (e ∷ es) (suc n) h = omega (arith, length-take_le es n (omega arith))

take-take-set : (es : List ℕ) (i n v : ℕ) → i ≤ n → take i (take n (set es i v)) ≡ take i es
take-take-set es zero n v h = refl
take-take-set [] (suc i) zero v h = absurd (omega arith)
take-take-set [] (suc i) (suc n) v h = refl
take-take-set (e ∷ es) (suc i) zero v h = absurd (omega arith)
take-take-set (e ∷ es) (suc i) (suc n) v h = rw (take-take-set es i n v (omega arith))

get_or-set_last :
    (es : List ℕ) (i n : ℕ)
    → i ≤ n
    → length es ≡ suc n
    → get_or (set es i (get_or es n 0)) n 0 ≡ get_or es n 0
get_or-set_last [] i n h e = absurd (omega arith)
get_or-set_last (x ∷ es) zero zero h e = refl
get_or-set_last (x ∷ es) zero (suc n) h e = refl
get_or-set_last (x ∷ es) (suc i) zero h e = absurd (omega arith)
get_or-set_last (x ∷ es) (suc i) (suc n) h e = get_or-set_last es i n (omega arith) (omega arith)

-- Replacing an entry by the last one takes that entry out, and leaves those before it.
replace_by_last_lem :
    (es : List ℕ) (i n : ℕ)
    → i ≤ n
    → length es ≡ suc n
    → (length (replace_by_last es i) ≡ n)
      × (take i (replace_by_last es i) ≡ take i es)
      × ((x : ℕ) → count x (replace_by_last es i) + tick (x == get_or es i 0) ≡ count x es)
unfolding replace_by_last
replace_by_last_lem es i n h e =
    let l : length es - 1 ≡ n = omega arith in
    let last = get_or es n 0 in
    let len = length-set es i last in
    rw l (
      length-take_le (set es i last) n (omega (arith, len)),
      take-take-set es i n last h,
      λ x. omega (
        arith,
        count-take_last x (set es i last) n 0 (omega (arith, len)),
        count-set x es i last 0 (omega arith),
        ap (λ (t : ℕ). tick (x == t)) (get_or-set_last es i n h e),
      ),
    )

-- Where a buffer that was visited is put: with the edges that are left, on one of two lists.
pub data PutBack (left : List ℕ) (s : FieldSet) : FieldSet → Type 0 where
  still_full :
      length left ≡ edge_buffer_capacity
      → PutBack left s (record s { full = record { edges = left } ∷ s.full })
  has_room :
      length left ≢ edge_buffer_capacity
      → PutBack left s (record s { partly_full = record { edges = left } ∷ s.partly_full })

release_buffer-PutBack :
    (s : FieldSet) (left : List ℕ) → PutBack left s (release_buffer s (record { edges = left }))
unfolding release_buffer
release_buffer-PutBack s left = elim (Bool-cases (length left == edge_buffer_capacity)) [
  | inl e ↦ rw e (PutBack.still_full (ground (arith, e)))
  | inr e ↦ rw e (PutBack.has_room (λ n. ground (arith, e)))
]

module _ {ℓ} {Heap : Type ℓ} (visit : ℕ → Heap → Bool × Heap) where
  -- The edges in an order, visited one after the other: those that the visitor keeps, and the heap.
  abbrev pub visit_each : List ℕ → Heap → List ℕ × Heap
  visit_each [] heap = ([], heap)
  visit_each (e ∷ es) heap =
      let (keep, heap') = visit e heap in
      let (kept, heap'') = visit_each es heap' in (if keep then e ∷ kept else kept, heap'')

  -- What the loop leaves, from the edges and the index where it starts: those before the index, and
  -- what is kept of the others, each visited once, in some order.
  pub record Visits (i : ℕ) (edges : List ℕ) (heap : Heap) (out : Option (List ℕ × Heap))
      : Type ℓ where
    pub left : List ℕ
    pub order : List ℕ
    pub returns : out ≡ some (left, (visit_each order heap).1)
    pub visited : (x : ℕ) → count x order + count x (take i edges) ≡ count x edges
    pub keeps : (x : ℕ) → count x left ≡ count x (take i edges) + count x (visit_each order heap).0
    pub fits : length left ≤ length edges

  visit_loop_keep :
      (fuel i : ℕ) (edges : List ℕ) (heap : Heap)
      → i < length edges
      → (visit (get_or edges i 0) heap).0 ≡ true
      → let heap' = (visit (get_or edges i 0) heap).1 in
        Visits (i + 1) edges heap' (visit_loop fuel visit (i + 1) edges heap')
        → Visits i edges heap (visit_loop (suc fuel) visit i edges heap)
  unfolding visit_loop
  visit_loop_keep fuel i edges heap h k r = record {
    left = r.left;
    order = get_or edges i 0 ∷ r.order;
    returns = rw (lt→ltb i (length edges) h, k, visit_loop) r.returns;
    visited = λ x. omega (arith, count-take_add x edges i h, r.visited x);
    keeps = λ x. rw k (omega (arith, count-take_add x edges i h, r.keeps x));
    fits = r.fits;
  }

  visit_loop_drop :
      (fuel i n : ℕ) (edges : List ℕ) (heap : Heap)
      → i ≤ n
      → length edges ≡ suc n
      → (visit (get_or edges i 0) heap).0 ≡ false
      → let heap' = (visit (get_or edges i 0) heap).1 in
        Visits i
          (replace_by_last edges i)
          heap'
          (visit_loop fuel visit i (replace_by_last edges i) heap')
        → Visits i edges heap (visit_loop (suc fuel) visit i edges heap)
  unfolding visit_loop
  visit_loop_drop fuel i n edges heap h len k r =
      let (len', same, counts) = replace_by_last_lem edges i n h len in
      let again = λ (x : ℕ). ap (count x) same in
      record {
        left = r.left;
        order = get_or edges i 0 ∷ r.order;
        returns = rw (lt→ltb i (length edges) (omega arith), k, visit_loop) r.returns;
        visited = λ x. omega (arith, counts x, again x, r.visited x);
        keeps = λ x. rw k (omega (arith, again x, r.keeps x));
        fits = omega (arith, r.fits);
      }

  visit_loop_end :
      (fuel i : ℕ) (edges : List ℕ) (heap : Heap)
      → length edges ≤ i
      → Visits i edges heap (visit_loop (suc fuel) visit i edges heap)
  unfolding visit_loop
  visit_loop_end fuel i edges heap h =
      let all = take_all edges i h in
      record {
        left = edges;
        order = [];
        returns = ground arith;
        visited = λ x. omega (arith, ap (count x) all);
        keeps = λ x. omega (arith, ap (count x) all);
        fits = omega arith;
      }

  visit_loop-Visits :
      (fuel i : ℕ) (edges : List ℕ) (heap : Heap)
      → length edges - i < fuel
      → Visits i edges heap (visit_loop fuel visit i edges heap)
  visit_loop-Visits zero i edges heap f = absurd (omega arith)
  visit_loop-Visits (suc fuel) i edges heap f =
      let (keep, heap') = visit (get_or edges i 0) heap in
      elim (Bool-cases (ltb i (length edges))) [
        | inr out ↦ visit_loop_end fuel i edges heap (ground arith)
        | inl inside ↦
            let lt : i < length edges = ground arith in
            let n = length edges - 1 in
            let len : length edges ≡ suc n = omega arith in
            let shorter = (replace_by_last_lem edges i n (omega arith) len).0 in
            elim (Bool-cases keep) [
              | inl k ↦
                  visit_loop_keep fuel i edges heap lt k
                    (visit_loop-Visits fuel (i + 1) edges heap' (omega arith))
              | inr k ↦
                  visit_loop_drop fuel i n edges heap (omega arith) len k
                    (visit_loop-Visits fuel i (replace_by_last edges i) heap' (omega arith))
            ]
      ]

  -- What visiting a buffer does.
  pub record VisitsBuffer (s : FieldSet) (b : EdgeBuffer) (heap : Heap)
      (out : Option (FieldSet × Heap)) : Type ℓ where
    pub left : List ℕ
    pub order : List ℕ
    pub set' : FieldSet
    pub returns : out ≡ some (set', (visit_each order heap).1)
    pub visited : (x : ℕ) → count x order ≡ count x b.edges
    pub keeps : (x : ℕ) → count x left ≡ count x (visit_each order heap).0
    pub fits : length left ≤ size b
    pub back : PutBack left s set'

  -- Visiting a buffer, by any visitor, ends within one round more than it has edges. There is an order
  -- of the buffer's edges, each as often as the buffer holds it, in which the visitor sees them, from
  -- the heap that it left before; the edges that it keeps are those left in the buffer. The buffer is
  -- back on the full ones if it is still full, and on the partly full ones if not, and no other changes.
  pub visit_edge_buffer_lem :
      (s : FieldSet) (b : EdgeBuffer) (heap : Heap)
      → VisitsBuffer s b heap (visit_edge_buffer s b visit heap)
  unfolding visit_edge_buffer
  visit_edge_buffer_lem s b heap =
      let v = visit_loop-Visits (suc (length b.edges)) 0 b.edges heap (omega arith) in
      rw (v.returns, ◌>>=◌)
        record {
          left = v.left;
          order = v.order;
          set' = release_buffer s (record { edges = v.left });
          returns = refl;
          visited = λ x. omega (arith, v.visited x);
          keeps = λ x. omega (arith, v.keeps x);
          fits = v.fits;
          back = release_buffer-PutBack s v.left;
        }
