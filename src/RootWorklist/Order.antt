-- ===== src/RootWorklist/Order.antt =====
-- Roots are handed out in the order in which they were added, each once, and none after the last.
use whippet.Base.{
  ℕ, zero, suc, ◌+◌, ◌≤◌, ◌<◌, ◌≡◌, refl, sym, ◌∙◌, ap, List, [], ◌∷◌, ◌++◌, Option, none, some,
  arith, ltb, get_elem?, take, drop, length, length-append, Bool-cases, inl, inr,
}
use whippet.Base.Word.{word, word_mod}
use whippet.RootWorklist.{RootWorklist, push, pop}

module _ {ℓ} {Root : Type ℓ} where
  -- The roots that were added and not yet taken.
  abbrev pub contents : RootWorklist Root → List Root
  contents q = drop q.read (take q.write q.buf)

  pub record IsValid (q : RootWorklist Root) : Type 0 where
    pub written : q.write ≤ length q.buf
    pub within : q.write ≤ q.size
    pub some_size : 0 < q.size

  length-take_le : (n : ℕ) (xs : List Root) → n ≤ length xs → length (take n xs) ≡ n
  length-take_le zero xs h = refl
  length-take_le (suc n) [] h = absurd (omega arith)
  length-take_le (suc n) (x ∷ xs) h = ap suc (length-take_le n xs (omega arith))

  take_all : (n : ℕ) (xs : List Root) → length xs ≡ n → take n xs ≡ xs
  take_all zero [] h = refl
  take_all zero (x ∷ xs) h = absurd (omega arith)
  take_all (suc n) [] h = refl
  take_all (suc n) (x ∷ xs) h = ap (λ t. x ∷ t) (take_all n xs (omega arith))

  drop_behind : (n : ℕ) (xs : List Root) → length xs ≤ n → drop n xs ≡ []
  drop_behind zero [] h = refl
  drop_behind zero (x ∷ xs) h = absurd (omega arith)
  drop_behind (suc n) [] h = refl
  drop_behind (suc n) (x ∷ xs) h = drop_behind n xs (omega arith)

  drop-append : (n : ℕ) (xs ys : List Root) → n ≤ length xs → drop n (xs ++ ys) ≡ drop n xs ++ ys
  drop-append zero xs ys h = refl
  drop-append (suc n) [] ys h = absurd (omega arith)
  drop-append (suc n) (x ∷ xs) ys h = drop-append n xs ys (omega arith)

  drop-next :
      (i : ℕ) (xs : List Root)
      → i < length xs
      → (x : Root) × (get_elem? xs i ≡ some x) × (drop i xs ≡ x ∷ drop (suc i) xs)
  drop-next i [] h = absurd (omega arith)
  drop-next zero (x ∷ xs) h = (x, refl, refl)
  drop-next (suc i) (x ∷ xs) h = drop-next i xs (omega arith)

  get_elem?-take : (n i : ℕ) (xs : List Root) → i < n → get_elem? (take n xs) i ≡ get_elem? xs i
  get_elem?-take zero i xs h = absurd (omega arith)
  get_elem?-take (suc n) i [] h = refl
  get_elem?-take (suc n) zero (x ∷ xs) h = refl
  get_elem?-take (suc n) (suc i) (x ∷ xs) h = get_elem?-take n i xs (omega arith)

  -- Adding a root to a valid worklist that has not been read past its end keeps it valid, grows it where
  -- it is full, and puts the root behind the others.
  pub push-contents :
      (q : RootWorklist Root) (root : Root)
      → IsValid q
      → q.read ≤ q.write
      → q.write + 1 < word_mod
      → let q' = push q root in
        IsValid q'
        × (contents q' ≡ contents q ++ root ∷ [])
        × (q'.write ≡ q.write + 1)
        × (q'.read ≡ q.read)
  unfolding push
  push-contents q root v h fits =
      let written = take q.write q.buf in
      let len = length-take_le q.write q.buf v.written in
      let next : word (q.write + 1) ≡ q.write + 1 = omega arith in
      let more : length (written ++ root ∷ []) ≡ q.write + 1 =
        omega (arith, len, length-append written (root ∷ [])) in
      (
        record {
          written = omega (arith, more, next);
          within = ground (arith, v.within, v.some_size, next);
          some_size = ground (arith, v.some_size);
        },
        ap (λ n. drop q.read (take n (written ++ root ∷ []))) next
            ∙ ap (drop q.read) (take_all (q.write + 1) (written ++ root ∷ []) more)
            ∙ drop-append q.read written (root ∷ []) (omega (arith, len)),
        next,
        refl,
      )

  -- What `n` pops answer, whoever makes them.
  abbrev pub pops : ℕ → RootWorklist Root → List (Option Root)
  pops zero q = []
  pops (suc n) q = (pop q).0 ∷ pops n (pop q).1

  -- The roots of a list, and then none.
  abbrev pub answers : ℕ → List Root → List (Option Root)
  answers zero xs = []
  answers (suc n) [] = none ∷ answers n []
  answers (suc n) (x ∷ xs) = some x ∷ answers n xs

  -- Any pops of a valid worklist that keep the index below 2^64, by one consumer or by several, together
  -- answer with the roots that wait, in the order in which they were added and each once, and with none
  -- from then on.
  pub pops-answers :
      (n : ℕ) (q : RootWorklist Root)
      → IsValid q
      → q.read + n < word_mod
      → pops n q ≡ answers n (contents q)
  unfolding pop
  pops-answers zero q v h = refl
  pops-answers (suc n) q v h =
      let next : word (q.read + 1) ≡ suc q.read = omega arith in
      let q' = record q { read = word (q.read + 1) } in
      let ih =
        pops-answers n q' record { written = v.written; within = v.within; some_size = v.some_size }
          (omega arith) in
      let len = length-take_le q.write q.buf v.written in
      let rest = ih ∙ ap (λ i. answers n (drop i (take q.write q.buf))) next in
      elim (Bool-cases (ltb q.read q.write)) [
        | inl e ↦
            let (x, at, d) = drop-next q.read (take q.write q.buf) (ground (arith, len)) in
            let same = sym (get_elem?-take q.write q.read q.buf (ground arith)) ∙ at in
            rw (e, same, d) (ap (λ t. some x ∷ t) rest)
        | inr e ↦
            let gone = drop_behind q.read (take q.write q.buf) (ground (arith, len)) in
            let gone' = drop_behind (suc q.read) (take q.write q.buf) (ground (arith, len)) in
            rw (e, gone) (ap (λ t. none ∷ t) (rest ∙ ap (answers n) gone'))
      ]
