-- ===== src/SimpleWorklist/Queue.antt =====
-- The worklist is a queue: what was pushed is popped in order, through any growth of the ring.
use whippet.Base.{
  ℕ, suc, ◌+◌, ◌-◌, ◌*◌, ◌%◌, ◌≤◌, ◌<◌, ◌≡◌, refl, ◌∙◌, ap, subst, List, [], ◌∷◌, ◌++◌, Option,
  none, some, Bool, false, arith, set, length, length-set, length-replicate, replicate, ◌⊎◌, inl,
  inr, leb, ◌==◌, Bool-cases, ◌>>=◌,
}
use whippet.Base.Word.{word, word_mod, sub_word}
use whippet.SimpleWorklist.{
  Worklist, ref_size, max_size, get, put, put_next, pop, alloc, grow, push,
}
use whippet.SimpleWorklist.Ring.{items, items-put, items-copy_loop, length-copy_loop}

-- How many references wait.
abbrev pub waiting : Worklist → ℕ
waiting q = q.write - q.read

abbrev pub contents : Worklist → List ℕ
contents q = items q.buf q.size q.read (waiting q)

pub record IsValid (q : Worklist) : Type 0 where
  pub buf_length : length q.buf ≡ q.size
  pub some_size : 0 < q.size
  pub order : q.read ≤ q.write
  pub room : q.write ≤ q.read + q.size
  pub fits : q.write < word_mod
  pub size_fits : q.size < word_mod

-- The worklist took in some references behind the others.
pub record Takes (q : Worklist) (xs : List ℕ) (q' : Worklist) : Type 0 where
  pub valid : IsValid q'
  pub appended : contents q' ≡ contents q ++ xs

pub put_next-Takes :
    (q : Worklist) (x : ℕ)
    → IsValid q
    → waiting q < q.size
    → q.write + 1 < word_mod
    → Takes q (x ∷ []) (put_next q x)
      × ((put_next q x).write ≡ q.write + 1)
      × ((put_next q x).read ≡ q.read)
      × ((put_next q x).size ≡ q.size)
unfolding put_next put
put_next-Takes q x v h fits =
    let at_end : q.read + waiting q ≡ q.write = omega (arith, v.order) in
    let next : word (q.write + 1) ≡ q.write + 1 = omega arith in
    let more : q.write + 1 - q.read ≡ suc (waiting q) = omega (arith, v.order) in
    (
      record {
        valid = record {
          buf_length = length-set q.buf (q.write % q.size) x ∙ v.buf_length;
          some_size = v.some_size;
          order = omega (arith, v.order);
          room = omega (arith, v.order);
          fits = omega arith;
          size_fits = v.size_fits;
        };
        appended =
            ap (λ n. items (set q.buf (q.write % q.size) x) q.size q.read (n - q.read)) next
            ∙ ap (items (set q.buf (q.write % q.size) x) q.size q.read) more
            ∙ subst
                (λ w.
                  items (set q.buf (w % q.size) x) q.size q.read (suc (waiting q))
                  ≡ contents q ++ x ∷ [])
                at_end (items-put q.buf q.size q.read (waiting q) x h v.buf_length);
      },
      next,
      refl,
      refl,
    )

-- What the platform's refusal, or the largest size, keeps from growing.
abbrev pub CannotGrow : (ℕ → Bool) → ℕ → Type 0
CannotGrow acquire_memory size = (max_size ≤ size) ⊎ (acquire_memory (size * 2 * ref_size) ≡ false)

pub record Grown (q : Worklist) (q' : Worklist) : Type 0 where
  pub valid : IsValid q'
  pub kept : contents q' ≡ contents q
  pub doubled : q'.size ≡ q.size * 2
  pub same_indices : (q'.read ≡ q.read) × (q'.write ≡ q.write)

module _ (acquire_memory : ℕ → Bool) where
  pub data Grows (q : Worklist) : Option Worklist → Type 0 where
    grew : (q' : Worklist) → Grown q q' → Grows q (some q')
    refused : CannotGrow acquire_memory q.size → Grows q none

  pub grow-Grows : (q : Worklist) → IsValid q → Grows q (grow acquire_memory q)
  unfolding grow alloc
  grow-Grows q v = elim (Bool-cases (leb max_size q.size)) [
    | inl e ↦ rw (grow, e) (Grows.refused (inl (ground arith)))
    | inr e ↦ elim (Bool-cases (acquire_memory (q.size * 2 * ref_size))) [
      | inr no_memory ↦ rw (grow, e, alloc, no_memory) (Grows.refused (inr no_memory))
      | inl memory ↦
          let fresh : List ℕ = replicate (q.size * 2) 0 in
          let len : length fresh ≡ q.size * 2 = length-replicate (q.size * 2) 0 in
          let fit : waiting q ≤ q.size * 2 = omega (arith, v.room, v.order) in
          rw (grow, e, alloc, memory)
            (Grows.grew _ record {
              valid = record {
                buf_length =
                    length-copy_loop q.buf q.size (q.size * 2) q.read (waiting q) fresh ∙ len;
                some_size = omega (arith, v.some_size);
                order = v.order;
                room = omega (arith, v.room);
                fits = v.fits;
                size_fits = ground arith;
              };
              kept = items-copy_loop q.buf q.size (q.size * 2) q.read (waiting q) fresh len fit;
              doubled = refl;
              same_indices = (refl, refl);
            })
    ]
  ]

  -- A push took the reference in, or crashed: the ring was full and could not grow.
  pub data Pushes (q : Worklist) (x : ℕ) : Option Worklist → Type 0 where
    pushed : (q' : Worklist) → Takes q (x ∷ []) q' → Pushes q x (some q')
    crashed : waiting q ≡ q.size → CannotGrow acquire_memory q.size → Pushes q x none

  push_grown :
      (q : Worklist) (x : ℕ) (out : Option Worklist)
      → waiting q ≡ q.size
      → q.write + 1 < word_mod
      → Grows q out
      → Pushes q x (out >>= λ q'. some (put_next q' x))
  push_grown q x out full fits (refused c) = Pushes.crashed full c
  push_grown q x out full fits (grew q' g) =
      let (r, w) = g.same_indices in
      let (t, _, _, _) =
        put_next-Takes q' x g.valid (omega (arith, g.doubled, g.valid.some_size)) (omega arith) in
      Pushes.pushed _
        record { valid = t.valid; appended = t.appended ∙ ap (λ l. l ++ x ∷ []) g.kept }

  -- Pushing on a valid worklist, whose indices are below 2^64 also after it, puts the reference behind
  -- all that wait and keeps the worklist valid, whether the ring grows or not; it crashes only where the
  -- ring is full and at its largest size, or the platform refuses the memory to double it.
  pub push-Pushes :
      (q : Worklist) (x : ℕ)
      → IsValid q
      → q.write + 1 < word_mod
      → Pushes q x (push acquire_memory q x)
  unfolding push
  push-Pushes q x v fits =
      let no_wrap : sub_word q.write q.read ≡ waiting q = omega (arith, v.order, v.fits) in
      elim (Bool-cases (waiting q == q.size)) [
        | inl e ↦ rw (push, no_wrap, e) (push_grown q x _ (ground arith) fits (grow-Grows q v))
        | inr e ↦
            rw (push, no_wrap, e)
              (Pushes.pushed _ (put_next-Takes q x v (ground (arith, v.room, v.order)) fits).0)
      ]

-- A pop took the oldest reference, or found none.
pub data Pops (q : Worklist) : ℕ × Worklist → Type 0 where
  popped : (x : ℕ) (q' : Worklist) → IsValid q' → contents q ≡ x ∷ contents q' → Pops q (x, q')
  none_left : contents q ≡ [] → Pops q (0, q)

-- Popping from a valid worklist takes the reference that waits longest and keeps the worklist valid, or
-- answers null, with the worklist as it was, exactly if none waits.
pub pop-Pops : (q : Worklist) → IsValid q → Pops q (pop q)
unfolding pop get
pop-Pops q v = elim (Bool-cases (q.read == q.write)) [
  | inl e ↦
      let nothing : waiting q ≡ 0 = ground arith in
      rw e (Pops.none_left (ap (items q.buf q.size q.read) nothing))
  | inr e ↦
      let next : word (q.read + 1) ≡ q.read + 1 = ground (arith, v.fits, v.order) in
      let one_less : waiting q ≡ suc (q.write - (q.read + 1)) = ground (arith, v.order) in
      rw (e, next)
        (Pops.popped _ _
          record {
            buf_length = v.buf_length;
            some_size = v.some_size;
            order = ground (arith, v.order);
            room = omega (arith, v.room);
            fits = v.fits;
            size_fits = v.size_fits;
          }
          (ap (items q.buf q.size q.read) one_less))
]
