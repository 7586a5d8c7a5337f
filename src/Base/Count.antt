-- ===== src/Base/Count.antt =====
-- How often a number stands in a list; two lists with the same counts hold the same items.
use Prim.Native.Nat.{ℕ, zero, suc, ◌+◌, ◌<◌}
use mathlib.Core.Path.{◌≡◌}
use mathlib.Core.List.{List, [], ◌∷◌, ◌++◌}
use mathlib.Core.Bool.{Bool, true, false}
use native.Mathlib.Omega.{arith}
use whippet.Base.Test.{◌==◌}
use whippet.Base.Array.{length, get_or, set, take, All}

abbrev pub tick : Bool → ℕ
tick true = 1
tick false = 0

abbrev pub count : ℕ → List ℕ → ℕ
count x [] = 0
count x (y ∷ ys) = tick (x == y) + count x ys

pub count-append : (x : ℕ) (ys zs : List ℕ) → count x (ys ++ zs) ≡ count x ys + count x zs
count-append x [] zs = omega arith
count-append x (y ∷ ys) zs = omega (arith, count-append x ys zs)

pub count-set :
    (x : ℕ) (ys : List ℕ) (i v d : ℕ)
    → i < length ys
    → count x (set ys i v) + tick (x == get_or ys i d) ≡ count x ys + tick (x == v)
count-set x [] i v d h = absurd (omega arith)
count-set x (y ∷ ys) zero v d h = omega arith
count-set x (y ∷ ys) (suc i) v d h = omega (arith, count-set x ys i v d)

-- The last entry of an array, counted apart.
pub count-take_last :
    (x : ℕ) (ys : List ℕ) (n d : ℕ)
    → length ys ≡ suc n
    → count x (take n ys) + tick (x == get_or ys n d) ≡ count x ys
count-take_last x [] n d h = absurd (omega arith)
count-take_last x (y ∷ []) zero d h = omega arith
count-take_last x (y ∷ z ∷ ys) zero d h = absurd (omega arith)
count-take_last x (y ∷ ys) (suc n) d h = omega (arith, count-take_last x ys n d (omega arith))

pub All-of_count {ℓ} : (P : ℕ → Type ℓ) (xs : List ℕ) → ((a : ℕ) → 0 < count a xs → P a) → All P xs
All-of_count P [] h = tt
All-of_count P (x ∷ xs) h =
    (h x (ground arith), All-of_count P xs (λ a held. h a (omega (arith, held))))
