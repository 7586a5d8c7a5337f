-- ===== src/FieldSet/Edges.antt =====
-- Which edges the remembered set holds, through writers, tracing and clearing.
use whippet.Base.{
  ℕ, ◌+◌, ◌<◌, ◌≡◌, refl, List, [], ◌∷◌, ◌++◌, Option, none, some, ◌==◌, ◌∙◌, sym, ap, arith, All,
  length, length-append, count, count-append, tick, Bool-cases, inl, inr, lt→ltb,
}
use whippet.FieldSet.{
  EdgeBuffer, FieldSet, Writer, size, edge_buffer_capacity, acquire_buffer, drain, add_roots, clear,
  clear_buffers, forget_edges, writer_release_buffer, write_edge, writer_add_edge,
}

abbrev pub edges_of : List EdgeBuffer → List ℕ
edges_of [] = []
edges_of (b ∷ bs) = b.edges ++ edges_of bs

-- How often the set remembers an edge.
abbrev pub held : ℕ → FieldSet → ℕ
held x s = count x (edges_of s.full) + count x (edges_of s.partly_full)

abbrev pub unflushed : ℕ → Writer → ℕ
unflushed x w = elim w.buf [ none ↦ 0 | some b ↦ count x b.edges ]

pub record IsValid (s : FieldSet) : Type 0 where
  pub full_size : All (λ b. size b ≡ edge_buffer_capacity) s.full
  pub partly_full_size : All (λ b. size b < edge_buffer_capacity) s.partly_full
  pub empty_size : All (λ b. size b ≡ 0) s.empty

abbrev pub WriterIsValid : Writer → Type 0
WriterIsValid w = (b : EdgeBuffer) → w.buf ≡ some b → size b < edge_buffer_capacity

count-zero : (x : ℕ) (ys : List ℕ) → length ys ≡ 0 → count x ys ≡ 0
count-zero x [] h = refl
count-zero x (y ∷ ys) h = absurd (omega arith)

abbrev set_of : List EdgeBuffer → List EdgeBuffer → List EdgeBuffer → FieldSet
set_of full partly_full empty = record { full = full; partly_full = partly_full; empty = empty }

acquire_buffer-IsValid :
    (f p e : List EdgeBuffer)
    → IsValid (set_of f p e)
    → let r = acquire_buffer (set_of f p e) in IsValid r.1 × (size r.0 < edge_buffer_capacity)
unfolding acquire_buffer
acquire_buffer-IsValid f p (b ∷ e) v = (
  record {
    full_size = v.full_size;
    partly_full_size = v.partly_full_size;
    empty_size = v.empty_size.1;
  },
  ground (arith, v.empty_size.0),
)
acquire_buffer-IsValid f (b ∷ p) [] v = (
  record { full_size = v.full_size; partly_full_size = v.partly_full_size.1; empty_size = tt },
  v.partly_full_size.0,
)
acquire_buffer-IsValid f [] [] v = (v, omega arith)

held-acquire_buffer :
    (f p e : List EdgeBuffer) (x : ℕ)
    → IsValid (set_of f p e)
    → let r = acquire_buffer (set_of f p e) in
      held x r.1 + count x r.0.edges ≡ held x (set_of f p e)
unfolding acquire_buffer
held-acquire_buffer f p (b ∷ e) x v = omega (arith, count-zero x b.edges v.empty_size.0)
held-acquire_buffer f (b ∷ p) [] x v = omega (arith, count-append x b.edges (edges_of p))
held-acquire_buffer f [] [] x v = omega arith

-- What a writer's store did: it succeeded, kept both valid, and remembers the edge once more.
pub record Writes (w : Writer) (s : FieldSet) (edge : ℕ) (out : Option (Writer × FieldSet))
    : Type 0 where
  pub writer : Writer
  pub after : FieldSet
  pub returns : out ≡ some (writer, after)
  pub set_valid : IsValid after
  pub writer_valid : WriterIsValid writer
  pub remembers :
      (x : ℕ) → held x after + unflushed x writer ≡ held x s + unflushed x w + tick (x == edge)

write_edge-Writes :
    (b : EdgeBuffer) (s : FieldSet) (edge : ℕ)
    → IsValid s
    → size b < edge_buffer_capacity
    → Writes (record { buf = some b }) s edge (write_edge b s edge)
unfolding write_edge
write_edge-Writes b s edge v h =
    let b' : EdgeBuffer = record { edges = b.edges ++ edge ∷ [] } in
    let len = length-append b.edges (edge ∷ []) in
    let cnt = λ (x : ℕ). count-append x b.edges (edge ∷ []) in
    elim (Bool-cases (size b' == edge_buffer_capacity)) [
      | inl e ↦ record {
        writer = record { buf = none };
        after = record s { full = b' ∷ s.full };
        returns = rw (lt→ltb _ _ h, e);
        set_valid = ground arith;
        writer_valid = λ c q. cc;
        remembers = λ x. omega (arith, cnt x, count-append x b'.edges (edges_of s.full));
      }
      | inr e ↦ record {
        writer = record { buf = some b' };
        after = s;
        returns = rw (lt→ltb _ _ h, e);
        set_valid = v;
        writer_valid = λ c q. ground (arith, len);
        remembers = λ x. omega (arith, cnt x);
      }
    ]

writer_cases :
    (o : Option EdgeBuffer) (s : FieldSet) (edge : ℕ)
    → IsValid s
    → WriterIsValid (record { buf = o })
    → Writes (record { buf = o }) s edge (writer_add_edge (record { buf = o }) s edge)
unfolding writer_add_edge
writer_cases (some b) s edge v wv = write_edge-Writes b s edge v (wv b refl)
writer_cases none s edge v wv =
    let (b, s') = acquire_buffer s in
    let (v', fits) = acquire_buffer-IsValid s.full s.partly_full s.empty v in
    let w = write_edge-Writes b s' edge v' fits in
    record {
      writer = w.writer;
      after = w.after;
      returns = w.returns;
      set_valid = w.set_valid;
      writer_valid = w.writer_valid;
      remembers =
          λ x. omega (arith, w.remembers x, held-acquire_buffer s.full s.partly_full s.empty x v);
    }

-- Adding an edge to a valid set through a valid writer passes the assertion on the buffer's size,
-- keeps the set and the writer valid, and makes the two together remember exactly that edge once
-- more, whether the writer has a buffer, takes an empty or a partly full one, or makes one.
pub writer_add_edge-Writes :
    (w : Writer) (s : FieldSet) (edge : ℕ)
    → IsValid s
    → WriterIsValid w
    → Writes w s edge (writer_add_edge w s edge)
writer_add_edge-Writes w s edge v wv = writer_cases w.buf s edge v wv

release_cases :
    (o : Option EdgeBuffer) (s : FieldSet)
    → IsValid s
    → WriterIsValid (record { buf = o })
    → let r = writer_release_buffer (record { buf = o }) s in
      IsValid r.1
      × (r.0.buf ≡ none)
      × ((x : ℕ) → held x r.1 ≡ held x s + unflushed x (record { buf = o }))
unfolding writer_release_buffer
release_cases none s v wv = (v, refl, λ x. omega arith)
release_cases (some b) s v wv =
    let fits = wv b refl in
    (
      ground arith,
      refl,
      λ x. ground (
        arith,
        count-append x b.edges (edges_of s.partly_full),
        count-append x b.edges (edges_of s.full),
      ),
    )

-- Releasing a writer's buffer keeps the set valid, leaves the writer with none, and moves all edges
-- of the buffer into the set.
pub writer_release_buffer-IsValid :
    (w : Writer) (s : FieldSet)
    → IsValid s
    → WriterIsValid w
    → let r = writer_release_buffer w s in
      IsValid r.1 × (r.0.buf ≡ none) × ((x : ℕ) → held x r.1 ≡ held x s + unflushed x w)
writer_release_buffer-IsValid w s v wv = release_cases w.buf s v wv

edges_of-append :
    (x : ℕ) (a b : List EdgeBuffer)
    → count x (edges_of (a ++ b)) ≡ count x (edges_of a) + count x (edges_of b)
edges_of-append x [] b = omega arith
edges_of-append x (c ∷ a) b = omega (
  arith,
  edges_of-append x a b,
  count-append x c.edges (edges_of (a ++ b)),
  count-append x c.edges (edges_of a),
)

drain_eq : (bs : List EdgeBuffer) → drain bs ≡ bs
unfolding drain
drain_eq [] = refl
drain_eq (b ∷ bs) = ap (λ t. b ∷ t) (drain_eq bs)

-- The roots that a collection is given hold each remembered edge as often as the set does, and the
-- set is left valid and with no edge.
pub add_roots-held :
    (s : FieldSet) (x : ℕ)
    → IsValid s
    → let (roots, s') = add_roots s in
      (count x (edges_of roots) ≡ held x s) × (held x s' ≡ 0) × IsValid s'
unfolding add_roots
add_roots-held s x v = (
  rw (drain_eq s.partly_full, drain_eq s.full)
      (omega (arith, edges_of-append x s.partly_full s.full)),
  refl,
  record { full_size = tt; partly_full_size = tt; empty_size = v.empty_size },
)

module _ {ℓ} {Heap : Type ℓ} where
  forget_edges-append :
      (forget : ℕ → Heap → Heap) (a b : List ℕ) (heap : Heap)
      → forget_edges forget (a ++ b) heap ≡ forget_edges forget b (forget_edges forget a heap)
  forget_edges-append forget [] b heap = refl
  forget_edges-append forget (e ∷ a) b heap = forget_edges-append forget a b (forget e heap)

  clear_buffers-forget :
      (forget : ℕ → Heap → Heap) (bs empty : List EdgeBuffer) (heap : Heap)
      → All (λ b. size b ≡ 0) empty
      → let r = clear_buffers (some forget) bs empty heap in
        All (λ b. size b ≡ 0) r.0
        × (length r.0 ≡ length bs + length empty)
        × (r.1 ≡ forget_edges forget (edges_of bs) heap)
  unfolding clear_buffers
  clear_buffers-forget forget [] empty heap a = (a, omega arith, refl)
  clear_buffers-forget forget (b ∷ bs) empty heap a =
      let none_in : EdgeBuffer = record { edges = [] } in
      let (valid, len, h) =
        clear_buffers-forget forget bs (none_in ∷ empty) (forget_edges forget b.edges heap)
          (refl, a) in
      (valid, omega (arith, len), h ∙ sym (forget_edges-append forget b.edges (edges_of bs) heap))

  -- Clearing a valid set keeps it valid, forgets each of its edges once, those of the partly full
  -- buffers first, and moves every buffer, emptied, to the empty ones.
  pub clear-forget :
      (s : FieldSet) (forget : ℕ → Heap → Heap) (heap : Heap)
      → IsValid s
      → let (s', heap') = clear s (some forget) heap in
        IsValid s'
        × (s'.full ≡ [])
        × (s'.partly_full ≡ [])
        × (length s'.empty ≡ length s.full + length s.partly_full + length s.empty)
        × (heap' ≡ forget_edges forget (edges_of s.partly_full ++ edges_of s.full) heap)
  unfolding clear
  clear-forget s forget heap v =
      let (valid, len, h) = clear_buffers-forget forget s.partly_full s.empty heap v.empty_size in
      let (valid', len', h') =
        clear_buffers-forget forget s.full
          (clear_buffers (some forget) s.partly_full s.empty heap).0
          (clear_buffers (some forget) s.partly_full s.empty heap).1 valid in
      (
        record { full_size = tt; partly_full_size = tt; empty_size = valid' },
        refl,
        refl,
        omega (arith, len, len'),
        h'
            ∙ ap (forget_edges forget (edges_of s.full)) h
            ∙ sym (forget_edges-append forget (edges_of s.partly_full) (edges_of s.full) heap),
      )
