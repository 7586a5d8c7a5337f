-- ===== src/LargeObject/Nursery.antt =====
-- A new space, and what a minor collection makes of objects in fresh pages.
use native.Mathlib.Nat.{mul-pos}
use whippet.Base.{
  ℕ, ◌+◌, ◌*◌, ◌^◌, ◌≤◌, ◌<◌, ◌≡◌, ◌≢◌, ◌∙◌, refl, ap, List, [], some, Bool, true, false, ◌==◌,
  arith, count, get_or-replicate, length-replicate, ==_refl,
}
use whippet.Base.Word.{word_mod}
use whippet.Histogram.{two_pow_pos}
use whippet.LargeObject.Span.{LargeObject}
use whippet.LargeObject.Space.{TraceKind, live, dead, Node, Space, node_at}
use whippet.LargeObject.Alloc.{init, fresh_pages}
use whippet.LargeObject.Cycle.{finish_gc}
use whippet.LargeObject.Nodes.{at, total-le, LiesApart}
use whippet.LargeObject.Insertion.{LiesApart-total, node_at-put}
use whippet.LargeObject.Valid.{live_at, IsValid, contains_none}
use whippet.LargeObject.Granted.{fresh_pages-Allocated}
use whippet.LargeObject.Finish.{finish_gc-Ends, survivor}
use whippet.LargeObject.Lists.{live_only}

-- A new space is valid.
pub init-IsValid :
    (conservative_roots : Bool) (page_size page_size_log2 : ℕ) (has_thread : Bool)
    → IsValid (init conservative_roots page_size page_size_log2 has_thread)
unfolding init
init-IsValid conservative_roots page_size page_size_log2 has_thread = record {
  sound = record {
    apart = tt;
    whole = refl;
    mapped = λ a. refl;
    classes = length-replicate {A = List ℕ} 253 [];
    quarantined = λ i a. ap (count a) (get_or-replicate {A = List ℕ} 253 i []);
    mark_set = refl;
    counted = refl;
    known = omega arith;
    free_le = omega arith;
    fits = omega arith;
  };
  in_use = omega arith;
  young = λ a. omega arith;
}

live_at-le-at : (a : ℕ) (n : Node) → live_at a n ≤ at a n
live_at-le-at a (key, live m t) = omega arith
live_at-le-at a (key, dead age) = omega arith

-- What fresh pages add to the space.
record Fresh (s : Space) (npages : ℕ) (x : LargeObject) (trace : TraceKind) (t : Space)
    : Type 0 where
  node : node_at x.addr t.object_tree ≡ some (x, live 0 trace)
  nursery : t.nursery ≡ s.nursery
  counted : t.live_pages_at_last_collection ≡ s.live_pages_at_last_collection
  pages : t.total_pages ≡ s.total_pages + npages

fresh_pages-Fresh :
    (acquire_memory : ℕ → ℕ) (s : Space) (npages size : ℕ) (trace : TraceKind)
    → IsValid s
    → 0 < size
    → acquire_memory size ≢ 0
    → LiesApart (record { addr = acquire_memory size; size = size }) s.object_tree
    → Fresh s npages
        (record { addr = acquire_memory size; size = size })
        trace
        (fresh_pages acquire_memory s npages size trace).1
unfolding fresh_pages
fresh_pages-Fresh acquire_memory s npages size trace v pos some_memory l =
    let x : LargeObject = record { addr = acquire_memory size; size = size } in
    let e : (acquire_memory size == 0) ≡ false = ground arith in
    rw e record {
      node =
          node_at-put x (live 0 trace) pos x.addr s.object_tree v.sound.apart l
          ∙ rw (==_refl x.addr) refl;
      nursery = refl;
      counted = refl;
      pages = refl;
    }

-- An object in fresh pages is not put into the nursery, so the next minor collection leaves it live
-- whether it was marked or not: here it was not, and its pages count as free all the same.
pub fresh_pages-finish_gc :
    (conservative_roots : Bool) (acquire_memory : ℕ → ℕ) (s : Space) (npages : ℕ)
    (trace : TraceKind)
    → IsValid s
    → 0 < npages
    → acquire_memory (npages * 2 ^ s.page_size_log2) ≢ 0
    → LiesApart
        (record {
          addr = acquire_memory (npages * 2 ^ s.page_size_log2);
          size = npages * 2 ^ s.page_size_log2;
        })
        s.object_tree
    → s.total_pages + npages < word_mod
    → (released : List LargeObject) × (u : Space) × (finish_gc true conservative_roots
          (fresh_pages acquire_memory s npages (npages * 2 ^ s.page_size_log2) trace).1
          true
        ≡ some (released, u))
      × (live_only (node_at (acquire_memory (npages * 2 ^ s.page_size_log2)) u.object_tree)
          ≡ some (
            record {
              addr = acquire_memory (npages * 2 ^ s.page_size_log2);
              size = npages * 2 ^ s.page_size_log2;
            },
            live 0 trace,
          ))
      × (u.marked ≢ 0)
      × (u.free_pages + s.live_pages_at_last_collection ≡ s.total_pages + npages)
fresh_pages-finish_gc conservative_roots acquire_memory s npages trace v pos some_memory l fits =
    let size = npages * 2 ^ s.page_size_log2 in
    let x : LargeObject = record { addr = acquire_memory size; size = size } in
    let some_bytes : 0 < size = mul-pos pos (two_pow_pos s.page_size_log2) in
    let done = fresh_pages-Allocated acquire_memory s npages trace v pos some_memory l fits in
    let f = fresh_pages-Fresh acquire_memory s npages size trace v some_bytes some_memory l in
    let t = (fresh_pages acquire_memory s npages size trace).1 in
    let e = finish_gc-Ends true conservative_roots true t done.valid (λ z. cc) in
    let old : count x.addr t.nursery ≡ 0 = omega (
      arith,
      ap (count x.addr) f.nursery,
      v.young x.addr,
      total-le (live_at x.addr) (at x.addr) (live_at-le-at x.addr) s.object_tree,
      LiesApart-total x s.object_tree some_bytes l v.sound.apart,
    ) in
    (
      e.released,
      e.space,
      e.run,
      e.nodes x.addr
          ∙ ap (λ b. survivor t.marked b (node_at x.addr t.object_tree))
              (contains_none x.addr t.nursery old)
          ∙ ap live_only f.node,
      omega (arith, e.valid.sound.mark_set),
      omega (arith, e.pages, f.counted, f.pages),
    )
