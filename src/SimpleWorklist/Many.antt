-- ===== src/SimpleWorklist/Many.antt =====
-- Pushing several references at once, after the ring has grown to hold them.
use mathlib.Core.List.{append_assoc, append-nil}
use whippet.Base.{
  ℕ, zero, suc, ◌+◌, ◌-◌, ◌≤◌, ◌<◌, ◌≡◌, refl, sym, ◌∙◌, ap, List, [], ◌∷◌, ◌++◌, Option, none,
  some, Bool, false, arith, length, inl, inr, ltb, Bool-cases, ◌>>=◌,
}
use whippet.Base.Word.{word_mod, sub_word}
use whippet.SimpleWorklist.{Worklist, put_next, put_all, reserve, push_many}
use whippet.SimpleWorklist.Queue.{
  waiting, contents, IsValid, Takes, put_next-Takes, CannotGrow, Grown, Grows, grew, refused,
  grow-Grows,
}

-- What taking in several references did to the indices.
put_all-Takes :
    (xs : List ℕ) (q : Worklist)
    → IsValid q
    → waiting q + length xs ≤ q.size
    → q.write + length xs < word_mod
    → Takes q xs (put_all q xs)
unfolding put_all
put_all-Takes [] q v h fits = record { valid = v; appended = sym (append-nil (contents q)) }
put_all-Takes (x ∷ xs) q v h fits =
    let (t, w, r, s) = put_next-Takes q x v (omega arith) (omega arith) in
    let u = put_all-Takes xs (put_next q x) t.valid (omega (arith, v.order)) (omega arith) in
    record {
      valid = u.valid;
      appended = u.appended ∙ ap (λ l. l ++ xs) t.appended ∙ append_assoc (contents q) (x ∷ []) xs;
    }

module _ (acquire_memory : ℕ → Bool) where
  -- Room was made, or some ring too small for all could not be doubled.
  data Reserves (q : Worklist) (count : ℕ) : Option Worklist → Type 0 where
    reserved :
        (q' : Worklist)
        → IsValid q'
        → contents q' ≡ contents q
        → waiting q' + count ≤ q'.size
        → q'.write ≡ q.write
        → Reserves q count (some q')
    too_small :
        (size : ℕ)
        → size < waiting q + count
        → CannotGrow acquire_memory size
        → Reserves q count none

  Reserves-of_Grown :
      (q q' : Worklist) (count : ℕ) (out : Option Worklist)
      → Grown q q'
      → Reserves q' count out
      → Reserves q count out
  Reserves-of_Grown q q' count out g (reserved u v c h w) =
      Reserves.reserved u v (c ∙ g.kept) h (w ∙ g.same_indices.1)
  Reserves-of_Grown q q' count out g (too_small size h c) =
      Reserves.too_small size (omega (arith, h, g.same_indices.0, g.same_indices.1)) c

  reserve_round :
      (fuel : ℕ) (q : Worklist) (count : ℕ) (out : Option Worklist)
      → q.size < waiting q + count
      → ((q' : Worklist) → Grown q q' → Reserves q' count (reserve acquire_memory fuel q' count))
      → Grows acquire_memory q out
      → Reserves q count (out >>= λ q'. reserve acquire_memory fuel q' count)
  reserve_round fuel q count out h next (refused c) = Reserves.too_small q.size h c
  reserve_round fuel q count out h next (grew q' g) = Reserves-of_Grown q q' count _ g (next q' g)

  reserve-Reserves :
      (fuel : ℕ) (q : Worklist) (count : ℕ)
      → IsValid q
      → waiting q + count ≤ q.size + fuel
      → Reserves q count (reserve acquire_memory (suc fuel) q count)
  unfolding reserve
  reserve-Reserves zero q count v h =
      let left : sub_word q.size (sub_word q.write q.read) ≡ q.size - waiting q =
        omega (arith, v.order, v.fits, v.room, v.size_fits) in
      let enough : ltb (q.size - waiting q) count ≡ false = ground arith in
      rw (reserve, left, enough) (Reserves.reserved q v refl (omega arith) refl)
  reserve-Reserves (suc fuel) q count v h =
      let left : sub_word q.size (sub_word q.write q.read) ≡ q.size - waiting q =
        omega (arith, v.order, v.fits, v.room, v.size_fits) in
      elim (Bool-cases (ltb (q.size - waiting q) count)) [
        | inr e ↦
            rw (reserve, left, e)
              (Reserves.reserved q v refl (ground (arith, v.room, v.order)) refl)
        | inl e ↦
            rw (reserve, left, e)
              (reserve_round (suc fuel) q count _ (ground (arith, v.room, v.order))
                (λ q' g.
                  reserve-Reserves fuel q' count g.valid
                    (omega (arith, g.doubled, g.same_indices.0, g.same_indices.1, v.some_size)))
                (grow-Grows acquire_memory q v))
      ]

  -- A push of many took them all in, or crashed: a ring too small for all could not be doubled.
  pub data PushesMany (q : Worklist) (xs : List ℕ) : Option Worklist → Type 0 where
    pushed_all : (q' : Worklist) → Takes q xs q' → PushesMany q xs (some q')
    crashed :
        (size : ℕ)
        → size < waiting q + length xs
        → CannotGrow acquire_memory size
        → PushesMany q xs none

  put_reserved :
      (q : Worklist) (xs : List ℕ) (out : Option Worklist)
      → q.write + length xs < word_mod
      → Reserves q (length xs) out
      → PushesMany q xs (out >>= λ q'. some (put_all q' xs))
  put_reserved q xs out fits (too_small size h c) = PushesMany.crashed size h c
  put_reserved q xs out fits (reserved q' v c h w) =
      let t = put_all-Takes xs q' v h (omega arith) in
      PushesMany.pushed_all _
        record { valid = t.valid; appended = t.appended ∙ ap (λ l. l ++ xs) c }

  -- Pushing several references on a valid worklist, whose indices are below 2^64 also after it, ends
  -- within the fuel given. It puts them in order behind all that wait and keeps the worklist valid; it
  -- crashes only where a ring too small for all is at its largest size, or the platform refuses the
  -- memory to double it.
  pub push_many-PushesMany :
      (q : Worklist) (xs : List ℕ)
      → IsValid q
      → q.write + length xs < word_mod
      → PushesMany q xs (push_many acquire_memory q xs (length xs))
  unfolding push_many
  push_many-PushesMany q xs v fits =
      put_reserved q xs _ fits
        (reserve-Reserves (length xs) q (length xs) v (omega (arith, v.room, v.order)))
