-- ===== src/Tracer/Reach.antt =====
-- Tracing marks what can be reached from the roots, and nothing else.
use whippet.Base.{
  ℕ, zero, suc, ◌+◌, ◌<◌, ◌≡◌, refl, ap, subst, List, [], ◌∷◌, ◌++◌, Option, some, true, false,
  arith, ◌==◌, ==_iff, ◌>>=◌, length, count, count-append, tick, Bool-cases, ◌⊎◌, inl, inr,
}
use whippet.Tracer.{
  Marks, Tracing, visit_all, Tracer, trace_root, roots_loop, objects_loop, trace_with_data,
}
use whippet.Tracer.Visits.{unmarked, Visits, nothing, then-Visits, visit_all-Visits}

module _ {ℓ} {Root : Type ℓ} (root_edges : Root → List ℕ) (edges : ℕ → List ℕ) where
  -- The references of all roots.
  abbrev pub root_refs : List Root → List ℕ
  root_refs [] = []
  root_refs (root ∷ roots) = root_edges root ++ root_refs roots

  pub data Reach (roots : List Root) : ℕ → Type ℓ where
    from_root : (a : ℕ) → 0 < count a (root_refs roots) → Reach roots a
    by_edge : (a b : ℕ) → Reach roots a → 0 < count b (edges a) → Reach roots b

  -- All references lead to one of the objects.
  pub record Within (objs : List ℕ) (roots : List Root) : Type 0 where
    pub of_roots : (a : ℕ) → 0 < count a (root_refs roots) → 0 < count a objs
    pub of_objects : (a b : ℕ) → 0 < count b (edges a) → 0 < count b objs

  -- What is marked refers to what is marked.
  abbrev pub IsClosed : Marks → Type 0
  IsClosed marks = (a b : ℕ) → marks a ≡ true → 0 < count b (edges a) → marks b ≡ true

  roots_loop-Visits :
      (objs : List ℕ) (roots : List Root) (t : Tracing)
      → ((a : ℕ) → 0 < count a (root_refs roots) → 0 < count a objs)
      → Visits objs (root_refs roots) t (roots_loop root_edges edges roots t)
  unfolding roots_loop trace_root
  roots_loop-Visits objs [] t h = nothing objs t
  roots_loop-Visits objs (root ∷ roots) t h =
      let refs = root_edges root in
      then-Visits objs refs (root_refs roots) t (visit_all refs t) _
        (visit_all-Visits objs refs t
          (λ a p. h a (omega (arith, p, count-append a refs (root_refs roots)))))
        (roots_loop-Visits objs roots (visit_all refs t)
          (λ a p. h a (omega (arith, p, count-append a refs (root_refs roots)))))

  -- Between two objects: what is marked and was looked into refers to what is marked, and what is marked
  -- was so from the start or can be reached.
  record Traced (roots : List Root) (marks0 : Marks) (t : Tracing) : Type ℓ where
    closed : (a b : ℕ) → t.0 a ≡ true → 0 < count b (edges a) → (0 < count a t.1) ⊎ (t.0 b ≡ true)
    held : (a : ℕ) → 0 < count a t.1 → t.0 a ≡ true
    only : (a : ℕ) → t.0 a ≡ true → (marks0 a ≡ true) ⊎ Reach roots a

  next_object :
      (objs : List ℕ) (roots : List Root) (marks0 marks : Marks) (obj : ℕ) (worklist : List ℕ)
      (t : Tracing)
      → IsClosed marks0
      → Traced roots marks0 (marks, obj ∷ worklist)
      → Visits objs (edges obj) (marks, worklist) t
      → Traced roots marks0 t
  next_object objs roots marks0 marks obj worklist t c i v = record {
    closed = λ a b m e. elim (v.enqueues a m) [
      | inr queued ↦ inl queued
      | inl old ↦ elim (i.closed a b old e) [
        | inr other ↦ inr (v.grows b other)
        | inl waits ↦ elim (Bool-cases (a == obj)) [
          | inl same ↦
              inr (v.marks b (subst (λ x. 0 < count b (edges x)) ((==_iff a obj).0 same) e))
          | inr other ↦ inl (omega (arith, waits, ap tick other, v.keeps a))
        ]
      ]
    ];
    held = λ a h. elim (v.marked_ones a h) [
      | inl old ↦ v.grows a (i.held a (omega (arith, old)))
      | inr new ↦ new
    ];
    only = λ a m. elim (v.only a m) [
      | inl old ↦ i.only a old
      | inr edge ↦ elim (i.only obj (i.held obj (ground arith))) [
        | inl old ↦ inl (c obj a old edge)
        | inr reached ↦ inr (Reach.by_edge obj a reached edge)
      ]
    ];
  }

  -- The end of the loop.
  record Ends (roots : List Root) (marks0 marks : Marks) (out : Option Tracing) : Type ℓ where
    marked : Marks
    run : out ≡ some (marked, [])
    traced : Traced roots marks0 (marked, [])
    grows : (a : ℕ) → marks a ≡ true → marked a ≡ true

  objects_loop-Ends :
      (fuel : ℕ) (objs : List ℕ) (roots : List Root) (marks0 : Marks) (t : Tracing)
      → Within objs roots
      → IsClosed marks0
      → length t.1 + unmarked t.0 objs < fuel
      → Traced roots marks0 t
      → Ends roots marks0 t.0 (objects_loop root_edges edges fuel t)
  unfolding objects_loop
  objects_loop-Ends zero objs roots marks0 t w c h i = absurd (omega (arith, h))
  objects_loop-Ends (suc fuel) objs roots marks0 (marks, []) w c h i = record {
    marked = marks;
    run = refl;
    traced = i;
    grows = λ a m. m;
  }
  objects_loop-Ends (suc fuel) objs roots marks0 (marks, obj ∷ worklist) w c h i =
      let t = visit_all (edges obj) (marks, worklist) in
      let v = visit_all-Visits objs (edges obj) (marks, worklist) (λ a p. w.of_objects obj a p) in
      let r =
        objects_loop-Ends fuel objs roots marks0 t w c (omega (arith, h, v.bounded))
          (next_object objs roots marks0 marks obj worklist t c i v) in
      record {
        marked = r.marked;
        run = r.run;
        traced = r.traced;
        grows = λ a m. r.grows a (v.grows a m);
      }

  reached_marked :
      (roots : List Root) (marked : Marks)
      → ((a : ℕ) → 0 < count a (root_refs roots) → marked a ≡ true)
      → IsClosed marked
      → (a : ℕ) → Reach roots a
      → marked a ≡ true
  reached_marked roots marked r c a (from_root b h) = r b h
  reached_marked roots marked r c a (by_edge b d reached e) =
      c b d (reached_marked roots marked r c b reached) e

  -- What a trace does.
  pub record Traces (tracer : Tracer Root) (marks : Marks) (out : Option (Tracer Root × Marks))
      : Type ℓ where
    pub marked : Marks
    pub run : out ≡ some (record tracer { roots = []; worklist = [] }, marked)
    pub reached : (a : ℕ) → Reach tracer.roots a → marked a ≡ true
    pub stays : (a : ℕ) → marks a ≡ true → marked a ≡ true
    pub only : (a : ℕ) → marked a ≡ true → (marks a ≡ true) ⊎ Reach tracer.roots a

  -- Tracing roots and objects, with no object waiting, from marks that are closed under references, of
  -- which all lead to the given objects, ends within a round for each object that is not marked, and one:
  -- what is marked then is exactly what was marked before or can be reached from the roots, and nothing
  -- is left to trace.
  pub trace_with_data-Traces :
      (fuel : ℕ) (objs : List ℕ) (tracer : Tracer Root) (marks : Marks)
      → tracer.trace_roots_only ≡ false
      → tracer.worklist ≡ []
      → Within objs tracer.roots
      → IsClosed marks
      → unmarked marks objs < fuel
      → Traces tracer marks (trace_with_data root_edges edges fuel tracer marks)
  unfolding trace_with_data
  trace_with_data-Traces fuel objs tracer marks all none_waits w c h =
      let roots = tracer.roots in
      let t0 : Tracing = (marks, tracer.worklist) in
      let t = roots_loop root_edges edges roots t0 in
      let v = roots_loop-Visits objs roots t0 w.of_roots in
      let empty : (a : ℕ) → count a tracer.worklist ≡ 0 = λ a. ap (count a) none_waits in
      let i : Traced roots marks t = record {
        closed = λ a b m e. elim (v.enqueues a m) [
          | inr queued ↦ inl queued
          | inl old ↦ inr (v.grows b (c a b old e))
        ];
        held = λ a q. elim (v.marked_ones a q) [
          | inl old ↦ absurd (omega (arith, old, empty a))
          | inr new ↦ new
        ];
        only = λ a m. elim (v.only a m) [
          | inl old ↦ inl old
          | inr root ↦ inr (Reach.from_root a root)
        ];
      } in
      let r =
        objects_loop-Ends fuel objs roots marks t w c
          (omega (arith, h, v.bounded, ap length none_waits)) i in
      rw (all, r.run, ◌>>=◌)
        record {
          marked = r.marked;
          run = refl;
          reached =
              reached_marked roots r.marked (λ a p. r.grows a (v.marks a p))
                (λ a b m e. elim (r.traced.closed a b m e) [
                  | inl waits ↦ absurd (omega (arith, waits))
                  | inr done_ ↦ done_
                ]);
          stays = λ a m. r.grows a (v.grows a m);
          only = r.traced.only;
        }
