-- ===== src/RootWorklist/Tests.antt =====
-- Runs of the root worklist, and its theorems at a concrete one.
use whippet.Base.{ℕ, ◌≡◌, refl, [], ◌∷◌, none, some, arith}
use whippet.RootWorklist.{RootWorklist, pop}
use whippet.RootWorklist.Order.{IsValid, contents, pops, answers, pops-answers}

-- Two roots wait; the others of the buffer are taken or left over.
abbrev two_wait : RootWorklist ℕ
two_wait = record { size = 4; read = 1; write = 3; buf = 5 ∷ 6 ∷ 7 ∷ 8 ∷ [] }

two_wait-IsValid : IsValid two_wait
two_wait-IsValid = record { written = omega arith; within = omega arith; some_size = omega arith }

takes_both : pops 3 two_wait ≡ some 6 ∷ some 7 ∷ none ∷ []
unfolding pop
takes_both = refl

pops-answers_example : pops 3 two_wait ≡ answers 3 (contents two_wait)
pops-answers_example = pops-answers 3 two_wait two_wait-IsValid (omega arith)
