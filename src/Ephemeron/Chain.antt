-- ===== src/Ephemeron/Chain.antt =====
-- Chains of ephemerons: a walk meets those that are not dead, in order, and leaves out the others.
use whippet.Base.{
  ℕ, zero, suc, ◌≤◌, ◌≡◌, ◌≢◌, refl, ap, ◌∙◌, List, [], ◌∷◌, Option, some, false, arith, ◌==◌,
  ==_refl, if◌then◌else◌, ◌>>=◌, length, count, Bool-cases, inl, inr,
}
use whippet.Ephemeron.{Ephemeron, Store, write, is_dead, follow_chain, chain_next}

-- The links from an ephemeron on, to null.
pub data Chain (store : Store) : ℕ → List ℕ → Type 0 where
  ends : Chain store 0 []
  link : (e : ℕ) (es : List ℕ) → e ≢ 0 → Chain store (store e).chain es → Chain store e (e ∷ es)

-- The chain less what is dead at its front, and less all that is dead.
abbrev pub drop_dead : Store → List ℕ → List ℕ
drop_dead store [] = []
drop_dead store (e ∷ es) = if is_dead (store e) then drop_dead store es else e ∷ es

abbrev pub live : Store → List ℕ → List ℕ
live store [] = []
live store (e ∷ es) = if is_dead (store e) then live store es else e ∷ live store es

abbrev pub first : List ℕ → ℕ
first [] = 0
first (e ∷ es) = e

live-drop_dead : (store : Store) (es : List ℕ) → live store (drop_dead store es) ≡ live store es
live-drop_dead store [] = refl
live-drop_dead store (e ∷ es) = elim (Bool-cases (is_dead (store e))) [
  | inl dead ↦ rw dead (live-drop_dead store es)
  | inr here ↦ rw (here, here) refl
]

first-live : (store : Store) (es : List ℕ) → first (drop_dead store es) ≡ first (live store es)
first-live store [] = refl
first-live store (e ∷ es) = elim (Bool-cases (is_dead (store e))) [
  | inl dead ↦ rw dead (first-live store es)
  | inr here ↦ rw here refl
]

count-drop_dead : (a : ℕ) (store : Store) (es : List ℕ) → count a (drop_dead store es) ≤ count a es
count-drop_dead a store [] = omega arith
count-drop_dead a store (e ∷ es) = elim (Bool-cases (is_dead (store e))) [
  | inl dead ↦ rw dead (omega (arith, count-drop_dead a store es))
  | inr here ↦ rw here (omega arith)
]

Chain-drop_dead :
    (store : Store) (e : ℕ) (es : List ℕ)
    → Chain store e es
    → Chain store (first (drop_dead store es)) (drop_dead store es)
Chain-drop_dead store e es (ends) = Chain.ends
Chain-drop_dead store e es (link e' es' n c) = elim (Bool-cases (is_dead (store e'))) [
  | inl dead ↦ rw dead (Chain-drop_dead store (store e').chain es' c)
  | inr here ↦ rw here (Chain.link e' es' n c)
]

follow_chain-drop_dead :
    (fuel : ℕ) (store : Store) (e : ℕ) (es : List ℕ)
    → length es ≤ fuel
    → Chain store e es
    → follow_chain fuel store e ≡ some (first (drop_dead store es))
unfolding follow_chain
follow_chain-drop_dead zero store e es h ends = refl
follow_chain-drop_dead (suc fuel) store e es h ends = refl
follow_chain-drop_dead zero store e es h (link e' es' n c) = absurd (omega (arith, h))
follow_chain-drop_dead (suc fuel) store e es h (link e' es' n c) =
    let some_link : (e' == 0) ≡ false = ground arith in
    let rest = follow_chain-drop_dead fuel store (store e').chain es' (omega (arith, h)) c in
    elim (Bool-cases (is_dead (store e'))) [
      | inl dead ↦ rw (some_link, dead) rest
      | inr here ↦ rw (some_link, here) refl
    ]

-- A write to an ephemeron that is not in the chain.
Chain-write :
    (store : Store) (a : ℕ) (x : Ephemeron) (e : ℕ) (es : List ℕ)
    → count a es ≡ 0
    → Chain store e es
    → Chain (write store a x) e es
Chain-write store a x e es h ends = Chain.ends
Chain-write store a x e es h (link e' es' n c) =
    let other : (e' == a) ≡ false = ground (arith, h) in
    Chain.link e' es' n (rw other (Chain-write store a x (store e').chain es' (omega (arith, h)) c))

live-write :
    (store : Store) (a : ℕ) (x : Ephemeron) (es : List ℕ)
    → count a es ≡ 0
    → live (write store a x) es ≡ live store es
live-write store a x [] h = refl
live-write store a x (e ∷ es) h =
    let other : (e == a) ≡ false = ground (arith, h) in
    let rest = live-write store a x es (omega (arith, h)) in rw (other, rest) refl

-- What following the link of an ephemeron does.
pub record Follows (store : Store) (e : ℕ) (es : List ℕ) (out : Option (ℕ × Store)) : Type 0 where
  pub store' : Store
  pub kept : List ℕ
  pub run : out ≡ some (first (live store es), store')
  pub chain : Chain store' (store' e).chain kept
  pub same_live : live store' kept ≡ live store es
  pub at_front : first kept ≡ first (live store es)

-- Following the link of an ephemeron to the end of its chain, which does not come back to it, ends within
-- fuel for the chain. It answers the first ephemeron behind it that is not dead, or null; the link then
-- leads there, and the chain from it on has the same ephemerons that are not dead, in the same order.
pub chain_next-Follows :
    (fuel : ℕ) (store : Store) (e : ℕ) (es : List ℕ)
    → Chain store (store e).chain es
    → length es ≤ fuel
    → count e es ≡ 0
    → Follows store e es (chain_next fuel store e)
unfolding chain_next
chain_next-Follows fuel store e es c h apart =
    let kept = drop_dead store es in
    let x : Ephemeron = record (store e) { chain = first kept } in
    let run = follow_chain-drop_dead fuel store (store e).chain es h c in
    let apart' : count e kept ≡ 0 = omega (arith, apart, count-drop_dead e store es) in
    rw (run, ◌>>=◌)
      record {
        store' = write store e x;
        kept = kept;
        run = ap (λ n. some (n, write store e x)) (first-live store es);
        chain = rw (==_refl e) (
            Chain-write store e x (first kept) kept apart'
              (Chain-drop_dead store (store e).chain es c));
        same_live = live-write store e x kept apart' ∙ live-drop_dead store es;
        at_front = first-live store es;
      }
