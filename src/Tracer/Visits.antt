-- ===== src/Tracer/Visits.antt =====
-- What visiting references does to the marks and the worklist.
use native.Mathlib.Decide.{dec_lt}
use whippet.Base.{
  ℕ, ◌+◌, ◌≤◌, ◌<◌, ◌≡◌, refl, ap, ◌∙◌, List, [], ◌∷◌, ◌++◌, true, false, not, arith, ◌==◌, ==_iff,
  ==_refl, length, length-append, count, count-append, tick, Bool-cases, ◌⊎◌, inl, inr,
}
use whippet.Tracer.{Marks, mark, Tracing, tracer_visit, visit_all}

-- How many of the objects are not marked.
abbrev pub unmarked : Marks → List ℕ → ℕ
unmarked marks [] = 0
unmarked marks (a ∷ objs) = tick (not (marks a)) + unmarked marks objs

pub record Visits (objs refs : List ℕ) (t t' : Tracing) : Type 0 where
  pub grows : (a : ℕ) → t.0 a ≡ true → t'.0 a ≡ true
  pub marks : (a : ℕ) → 0 < count a refs → t'.0 a ≡ true
  pub only : (a : ℕ) → t'.0 a ≡ true → (t.0 a ≡ true) ⊎ (0 < count a refs)
  pub enqueues : (a : ℕ) → t'.0 a ≡ true → (t.0 a ≡ true) ⊎ (0 < count a t'.1)
  pub keeps : (a : ℕ) → count a t.1 ≤ count a t'.1
  pub marked_ones : (a : ℕ) → 0 < count a t'.1 → (0 < count a t.1) ⊎ (t'.0 a ≡ true)
  pub bounded : length t'.1 + unmarked t'.0 objs ≤ length t.1 + unmarked t.0 objs

unmarked-mark_le :
    (marks : Marks) (ref : ℕ) (objs : List ℕ) → unmarked (mark marks ref) objs ≤ unmarked marks objs
unmarked-mark_le marks ref [] = omega arith
unmarked-mark_le marks ref (a ∷ objs) = elim (Bool-cases (a == ref)) [
  | inl e ↦ rw e (omega (arith, unmarked-mark_le marks ref objs))
  | inr e ↦ rw e (omega (arith, unmarked-mark_le marks ref objs))
]

unmarked-mark :
    (marks : Marks) (ref : ℕ) (objs : List ℕ)
    → 0 < count ref objs
    → marks ref ≡ false
    → unmarked (mark marks ref) objs + 1 ≤ unmarked marks objs
unmarked-mark marks ref [] h n = absurd (omega (arith, h))
unmarked-mark marks ref (a ∷ objs) h n = elim (Bool-cases (a == ref)) [
  | inl e ↦
      let not_yet : marks a ≡ false = ap marks ((==_iff a ref).0 e) ∙ n in
      rw (e, not_yet) (omega (arith, unmarked-mark_le marks ref objs))
  | inr e ↦
      let other : (ref == a) ≡ false = ground (arith, e) in
      rw e (omega (arith, unmarked-mark marks ref objs (omega (arith, h, ap tick other)) n))
]

pub nothing : (objs : List ℕ) (t : Tracing) → Visits objs [] t t
nothing objs t = record {
  grows = λ a h. h;
  marks = λ a h. absurd (omega (arith, h));
  only = λ a h. inl h;
  enqueues = λ a h. inl h;
  keeps = λ a. omega arith;
  marked_ones = λ a h. inl h;
  bounded = omega arith;
}

visit-Visits :
    (objs : List ℕ) (ref : ℕ) (t : Tracing)
    → 0 < count ref objs
    → Visits objs (ref ∷ []) t (tracer_visit ref t)
unfolding tracer_visit
visit-Visits objs ref t h = elim (Bool-cases (t.0 ref)) [
  | inl marked ↦
      rw (tracer_visit, marked)
        record {
          grows = λ a p. p;
          marks = λ a p. elim (Bool-cases (a == ref)) [
            | inl e ↦ ap t.0 ((==_iff a ref).0 e) ∙ marked
            | inr e ↦ absurd (omega (arith, p, ap tick e))
          ];
          only = λ a p. inl p;
          enqueues = λ a p. inl p;
          keeps = λ a. omega arith;
          marked_ones = λ a p. inl p;
          bounded = omega arith;
        }
  | inr new ↦
      rw (tracer_visit, new)
        record {
          grows = λ a p. elim (Bool-cases (a == ref)) [ inl e ↦ rw e refl | inr e ↦ rw e p ];
          marks = λ a p. elim (Bool-cases (a == ref)) [
            | inl e ↦ rw e refl
            | inr e ↦ absurd (omega (arith, p, ap tick e))
          ];
          only = λ a. elim (Bool-cases (a == ref)) [
            | inl e ↦ rw e (λ p. inr (omega arith))
            | inr e ↦ rw e (λ p. inl p)
          ];
          enqueues = λ a. elim (Bool-cases (a == ref)) [
            | inl e ↦ λ p. inr (omega (arith, count-append a t.1 (ref ∷ []), ap tick e))
            | inr e ↦ rw e (λ p. inl p)
          ];
          keeps = λ a. omega (arith, count-append a t.1 (ref ∷ []));
          marked_ones = λ a p. elim (Bool-cases (a == ref)) [
            | inl e ↦ inr (rw e refl)
            | inr e ↦ inl (omega (arith, p, count-append a t.1 (ref ∷ []), ap tick e))
          ];
          bounded = omega (arith, length-append t.1 (ref ∷ []), unmarked-mark t.0 ref objs h new);
        }
]

pub then-Visits :
    (objs refs refs' : List ℕ) (t t' t'' : Tracing)
    → Visits objs refs t t'
    → Visits objs refs' t' t''
    → Visits objs (refs ++ refs') t t''
then-Visits objs refs refs' t t' t'' v w = record {
  grows = λ a h. w.grows a (v.grows a h);
  marks = λ a h. elim (dec_lt 0 (count a refs)) [
    | yes front ↦ w.grows a (v.marks a front)
    | no other ↦ w.marks a (omega (arith, h, count-append a refs refs'))
  ];
  only = λ a h. elim (w.only a h) [
    | inr new ↦ inr (omega (arith, new, count-append a refs refs'))
    | inl old ↦ elim (v.only a old) [
      | inl older ↦ inl older
      | inr new ↦ inr (omega (arith, new, count-append a refs refs'))
    ]
  ];
  enqueues = λ a h. elim (w.enqueues a h) [
    | inr new ↦ inr new
    | inl old ↦ elim (v.enqueues a old) [
      | inl older ↦ inl older
      | inr new ↦ inr (omega (arith, new, w.keeps a))
    ]
  ];
  keeps = λ a. omega (arith, v.keeps a, w.keeps a);
  marked_ones = λ a h. elim (w.marked_ones a h) [
    | inr new ↦ inr new
    | inl old ↦ elim (v.marked_ones a old) [ inl older ↦ inl older | inr new ↦ inr (w.grows a new) ]
  ];
  bounded = omega (arith, v.bounded, w.bounded);
}

pub visit_all-Visits :
    (objs refs : List ℕ) (t : Tracing)
    → ((a : ℕ) → 0 < count a refs → 0 < count a objs)
    → Visits objs refs t (visit_all refs t)
unfolding visit_all
visit_all-Visits objs [] t h = nothing objs t
visit_all-Visits objs (ref ∷ refs) t h =
    then-Visits objs (ref ∷ []) refs t (tracer_visit ref t) _
      (visit-Visits objs ref t (h ref (omega (arith, ap tick (==_refl ref)))))
      (visit_all-Visits objs refs (tracer_visit ref t) (λ a p. h a (omega (arith, p))))
