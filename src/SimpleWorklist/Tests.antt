-- ===== src/SimpleWorklist/Tests.antt =====
-- Runs of the worklist, and its theorems at a concrete ring.
use whippet.Base.{ℕ, ◌≡◌, refl, [], ◌∷◌, none, some, Bool, true, arith}
use whippet.SimpleWorklist.{Worklist, push, pop, put, put_next, grow, alloc, copy_loop}
use whippet.SimpleWorklist.Queue.{IsValid, contents, Pushes, Pops, push-Pushes, pop-Pops}

abbrev always : ℕ → Bool
always bytes = true

-- A full ring of four that has wrapped: 30, 40, 50, 60 wait, in this order.
abbrev wrapped : Worklist
wrapped = record { size = 4; read = 2; write = 6; buf = 50 ∷ 60 ∷ 30 ∷ 40 ∷ [] }

wrapped-IsValid : IsValid wrapped
wrapped-IsValid = record {
  buf_length = refl;
  some_size = omega arith;
  order = omega arith;
  room = omega arith;
  fits = omega arith;
  size_fits = omega arith;
}

grows_in_order :
    elim (push always wrapped 70) [ none ↦ [] | some q ↦ contents q ] ≡ 30 ∷ 40 ∷ 50 ∷ 60 ∷ 70 ∷ []
unfolding push grow alloc copy_loop put_next put
grows_in_order = refl

push-Pushes_example : Pushes always wrapped 70 (push always wrapped 70)
push-Pushes_example = push-Pushes always wrapped 70 wrapped-IsValid (omega arith)

pop-Pops_example : Pops wrapped (pop wrapped)
pop-Pops_example = pop-Pops wrapped wrapped-IsValid
