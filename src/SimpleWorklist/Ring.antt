-- ===== src/SimpleWorklist/Ring.antt =====
-- The references between the two indices of a ring buffer, in order.
use native.Mathlib.Nat.{mul-le-mul_right, div-add-mod', mod-lt}
use whippet.Base.{
  ℕ, zero, suc, ◌+◌, ◌*◌, ◌/◌, ◌%◌, ◌≤◌, ◌<◌, ◌≡◌, ◌≢◌, refl, sym, ◌∙◌, ap, subst, List, [], ◌∷◌,
  ◌++◌, arith, get_or, set, length, length-set, get_or-set_self, get_or-set_ne, inl, inr, ltb,
  Bool-cases, leb,
}
use whippet.SimpleWorklist.{copy_loop}

-- `n` references from index `i` on.
abbrev pub items : List ℕ → ℕ → ℕ → ℕ → List ℕ
items buf size i zero = []
items buf size i (suc n) = get_or buf (i % size) 0 ∷ items buf size (i + 1) n

-- Two indices less than the size apart do not meet.
pub mod-ne : (i j size : ℕ) → i < j → j < i + size → i % size ≢ j % size
mod-ne i j size h k e =
    let a = div-add-mod' i size in
    let b = div-add-mod' j size in
    elim (Bool-cases (leb (j / size) (i / size))) [
      | inl q ↦
          let le : j / size * size ≤ i / size * size = mul-le-mul_right size (ground arith) in
          omega arith
      | inr q ↦
          let le : (i / size + 1) * size ≤ j / size * size = mul-le-mul_right size (ground arith) in
          let more : (i / size + 1) * size ≡ i / size * size + size = grind arith in omega arith
    ]

pub items-congr :
    (buf buf' : List ℕ) (size size' i n : ℕ)
    → ((j : ℕ) → i ≤ j → j < i + n → get_or buf' (j % size') 0 ≡ get_or buf (j % size) 0)
    → items buf' size' i n ≡ items buf size i n
items-congr buf buf' size size' i zero h = refl
items-congr buf buf' size size' i (suc n) h =
    ap (λ t. t ∷ items buf' size' (i + 1) n) (h i (omega arith) (omega arith))
    ∙ ap (λ t. get_or buf (i % size) 0 ∷ t)
        (items-congr buf buf' size size' (i + 1) n (λ j a b. h j (omega arith) (omega arith)))

-- One more reference at the end.
pub items-append :
    (buf : List ℕ) (size i n : ℕ)
    → items buf size i (suc n) ≡ items buf size i n ++ get_or buf ((i + n) % size) 0 ∷ []
items-append buf size i zero = ap (λ j. get_or buf (j % size) 0 ∷ []) (omega arith)
items-append buf size i (suc n) =
    ap (λ t. get_or buf (i % size) 0 ∷ t)
      (items-append buf size (i + 1) n
        ∙ ap (λ j. items buf size (i + 1) n ++ get_or buf (j % size) 0 ∷ []) (shift i n))
  where
    shift : (i n : ℕ) → i + 1 + n ≡ i + suc n
    shift i n = omega arith

-- Writing behind the last reference, where there is room, leaves the others alone.
pub items-put :
    (buf : List ℕ) (size i n x : ℕ)
    → n < size
    → length buf ≡ size
    → items (set buf ((i + n) % size) x) size i (suc n) ≡ items buf size i n ++ x ∷ []
items-put buf size i n x h len =
    items-append (set buf ((i + n) % size) x) size i n
    ∙ ap (λ t. t ++ get_or (set buf ((i + n) % size) x) ((i + n) % size) 0 ∷ [])
        (items-congr buf _ size size i n (λ j a b.
          get_or-set_ne buf ((i + n) % size) (j % size) x 0
            (λ e. mod-ne j (i + n) size b (omega arith) (sym e))))
    ∙ ap (λ t. items buf size i n ++ t ∷ [])
        (get_or-set_self buf ((i + n) % size) x 0
          (omega (arith, mod-lt (i + n) {m = size} (omega arith), len)))

pub length-copy_loop :
    (old : List ℕ) (os ns i n : ℕ) (new : List ℕ)
    → length (copy_loop old os ns i n new) ≡ length new
unfolding copy_loop
length-copy_loop old os ns i zero new = refl
length-copy_loop old os ns i (suc n) new =
    length-copy_loop old os ns (i + 1) n _ ∙ length-set new (i % ns) (get_or old (i % os) 0)

-- The copy does not reach what stands before it in the new ring.
copy_loop-before :
    (old : List ℕ) (os ns i n : ℕ) (new : List ℕ) (j : ℕ)
    → j < i
    → i + n ≤ j + ns
    → get_or (copy_loop old os ns i n new) (j % ns) 0 ≡ get_or new (j % ns) 0
unfolding copy_loop
copy_loop-before old os ns i zero new j h k = refl
copy_loop-before old os ns i (suc n) new j h k =
    copy_loop-before old os ns (i + 1) n _ j (omega arith) (omega arith)
    ∙ get_or-set_ne new (i % ns) (j % ns) _ 0 (λ e. mod-ne j i ns h (omega arith) (sym e))

copy_loop-copied :
    (old : List ℕ) (os ns i n : ℕ) (new : List ℕ) (j : ℕ)
    → length new ≡ ns
    → n ≤ ns
    → i ≤ j
    → j < i + n
    → get_or (copy_loop old os ns i n new) (j % ns) 0 ≡ get_or old (j % os) 0
unfolding copy_loop
copy_loop-copied old os ns i zero new j len fits h k = absurd (omega arith)
copy_loop-copied old os ns i (suc n) new j len fits h k = elim (Bool-cases (ltb i j)) [
  | inl e ↦
      copy_loop-copied old os ns (i + 1) n _ j (length-set new (i % ns) _ ∙ len) (omega arith)
        (ground arith) (omega arith)
  | inr e ↦
      let same : i ≡ j = ground arith in
      subst (λ t. get_or (copy_loop old os ns i (suc n) new) (t % ns) 0 ≡ get_or old (t % os) 0)
        same
        (copy_loop-before old os ns (i + 1) n _ i (omega arith) (omega arith)
          ∙ get_or-set_self new (i % ns) _ 0 (omega (arith, mod-lt i {m = ns} (omega arith), len)))
]

-- Growing keeps the references and their order.
pub items-copy_loop :
    (old : List ℕ) (os ns i n : ℕ) (new : List ℕ)
    → length new ≡ ns
    → n ≤ ns
    → items (copy_loop old os ns i n new) ns i n ≡ items old os i n
items-copy_loop old os ns i n new len fits =
    items-congr old _ os ns i n (λ j a b. copy_loop-copied old os ns i n new j len fits a b)
