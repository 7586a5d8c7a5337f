-- ===== src/LargeObject/Granted.antt =====
-- What allocation takes from a hole of the quarantine, or from fresh pages.
use native.Mathlib.Nat.{mul-div_cancel, mul-mod_left, mul-pos}
use whippet.Base.{
  ℕ, ◌+◌, ◌-◌, ◌*◌, ◌/◌, ◌^◌, ◌≤◌, ◌<◌, ◌≡◌, ◌≢◌, ◌∙◌, refl, ap, List, [], Option, some, Bool, true,
  false, ◌==◌, arith, ==_refl, count, Bool-cases, inl, inr, ◌>>=◌, get_or,
}
use whippet.Base.Word.{word_mod, sub_word}
use whippet.Histogram.{two_pow_pos}
use whippet.LargeObject.Span.{LargeObject}
use whippet.LargeObject.Space.{TraceKind, live, dead, Node, Space, node_at, add}
use whippet.LargeObject.Alloc.{take_hole, fresh_pages, add_to_nursery}
use whippet.LargeObject.Nodes.{total, at, LiesApart, total-set_node, total-le}
use whippet.LargeObject.Insertion.{node_at-set_node, LiesApart-total, total-put, IsApart-put}
use whippet.LargeObject.Valid.{
  hole_at, live_at, live_pages, node_pages, marked_pages, odd_bytes, IsSound, IsValid, count-add,
  unlink-Unlinked,
}
use whippet.LargeObject.Round.{Hole}
use whippet.LargeObject.Trim.{revived, revived-IsSound, trim_tail-Trimmed}

-- An object of a size and kind has come, and every other live object is as it was.
pub record Allocated (s : Space) (addr size : ℕ) (trace : TraceKind) (s' : Space) : Type 0 where
  pub valid : IsValid s'
  pub lives :
      (w : Node → ℕ)
      → ((key : LargeObject) (age : ℕ) → w (key, dead age) ≡ 0)
      → total w s'.object_tree
        ≡ total w s.object_tree + w (record { addr = addr; size = size }, live 0 trace)
  pub marked_same : s'.marked ≡ s.marked

-- No dead node of a size that fits a word is large enough.
abbrev pub NoHole : Space → ℕ → Type 0
NoHole s size =
    (a : ℕ) (key : LargeObject) (age : ℕ)
    → node_at a s.object_tree ≡ some (key, dead age)
    → key.size < word_mod
    → key.size < size

pub data Allocates (acquire_memory : ℕ → ℕ) (s : Space) (npages : ℕ) (trace : TraceKind)
    : Option (ℕ × Space) → Type 0 where
  reused :
      (addr : ℕ) (s' : Space) (key : LargeObject) (age : ℕ)
      → node_at addr s.object_tree ≡ some (key, dead age)
      → npages * 2 ^ s.page_size_log2 ≤ key.size
      → Allocated s addr (npages * 2 ^ s.page_size_log2) trace s'
      → s'.free_pages + npages ≡ s.free_pages
      → total (λ n. n.0.size) s'.object_tree ≡ total (λ n. n.0.size) s.object_tree
      → Allocates acquire_memory s npages trace (some (addr, s'))
  fresh :
      (s' : Space)
      → NoHole s (npages * 2 ^ s.page_size_log2)
      → acquire_memory (npages * 2 ^ s.page_size_log2) ≢ 0
      → Allocated s
          (acquire_memory (npages * 2 ^ s.page_size_log2))
          (npages * 2 ^ s.page_size_log2)
          trace
          s'
      → s'.total_pages ≡ s.total_pages + npages
      → Allocates acquire_memory s npages trace
          (some (acquire_memory (npages * 2 ^ s.page_size_log2), s'))
  refused :
      NoHole s (npages * 2 ^ s.page_size_log2)
      → acquire_memory (npages * 2 ^ s.page_size_log2) ≡ 0
      → Allocates acquire_memory s npages trace (some (0, s))

live_pages-le : (log2 : ℕ) (n : Node) → live_pages log2 n ≤ node_pages log2 n
live_pages-le log2 (key, live m t) = omega arith
live_pages-le log2 (key, dead age) = omega arith

module _ (acquire_memory : ℕ → ℕ) (s : Space) (npages : ℕ) (trace : TraceKind) (v : IsValid s)
    (some_pages : 0 < npages) where
  abbrev pub size : ℕ
  size = npages * 2 ^ s.page_size_log2

  size_pages : (0 < size) × (size / 2 ^ s.page_size_log2 ≡ npages)
  size_pages =
      let p = two_pow_pos s.page_size_log2 in (mul-pos some_pages p, mul-div_cancel npages p)

  module _ (addr : ℕ) (tree : List Node) (object_map : List ℕ) (quarantine : List (List ℕ)) where
    taken : Space
    taken = record s { object_tree = tree; object_map = object_map; quarantine = quarantine }

    -- The live nodes are those of before, and the new object.
    Gains : Type 0
    Gains =
        (w : Node → ℕ)
        → ((key : LargeObject) (age : ℕ) → w (key, dead age) ≡ 0)
        → total w tree
          ≡ total w s.object_tree + w (record { addr = addr; size = size }, live 0 trace)

    with_counts :
        (nursery : List ℕ)
        → IsSound taken
        → Gains
        → ((a : ℕ) → count a nursery ≤ total (live_at a) tree)
        → Allocated s addr size trace
            (record taken { nursery = nursery; free_pages = sub_word s.free_pages npages })
          × (sub_word s.free_pages npages + npages ≡ s.free_pages)
    unfolding taken Gains
    with_counts nursery sound lives young =
        let log2 = s.page_size_log2 in
        let gained = lives (live_pages log2) (λ key age. refl) in
        let below = total-le (live_pages log2) (node_pages log2) (live_pages-le log2) tree in
        let enough : npages ≤ s.free_pages =
          omega (arith, gained, below, sound.known, v.in_use, size_pages) in
        let less : sub_word s.free_pages npages ≡ s.free_pages - npages =
          omega (arith, enough, sound.free_le, sound.fits) in
        (
          record {
            valid = record {
              sound = record {
                apart = sound.apart;
                whole = sound.whole;
                mapped = sound.mapped;
                classes = sound.classes;
                quarantined = sound.quarantined;
                mark_set = sound.mark_set;
                counted = sound.counted;
                known = sound.known;
                free_le = omega (arith, less, sound.free_le);
                fits = sound.fits;
              };
              in_use = omega (arith, gained, less, enough, v.in_use, size_pages);
              young = young;
            };
            lives = lives;
            marked_same = refl;
          },
          omega (arith, less, enough),
        )

    -- With the nursery and the free pages, the hole taken is an allocation.
    finished :
        (generational : Bool)
        → IsSound taken
        → Gains
        → let t = add_to_nursery generational addr taken in
          Allocated s addr size trace (record t { free_pages = sub_word t.free_pages npages })
          × (sub_word t.free_pages npages + npages ≡ s.free_pages)
          × (t.object_tree ≡ tree)
    unfolding taken Gains add
    finished true sound lives =
        let (done, free) =
          with_counts (add addr s.nursery) sound lives
            (λ a. ground (arith, v.young a, lives (live_at a) (λ key age. refl))) in
        (done, free, refl)
    finished false sound lives =
        let (done, free) =
          with_counts s.nursery sound lives
            (λ a. omega (arith, v.young a, lives (live_at a) (λ key age. refl))) in
        (done, free, refl)

  -- A hole that is large enough, in a list of the quarantine.
  module _ (generational : Bool) (i ptr : ℕ) (h : Hole i ptr s.object_tree)
      (held : 0 < count ptr (get_or s.quarantine i [])) (le : size ≤ h.key.size) where
    pub take_hole-Allocates :
        Allocates acquire_memory s npages trace (take_hole generational s ptr npages size trace)
    unfolding take_hole taken Gains size_pages
    take_hole-Allocates =
        let (q, run, u) = unlink-Unlinked ptr i s.quarantine held in
        let s1 = revived s ptr h.key trace q in
        let sound1 = revived-IsSound s i ptr trace q v.sound h u in
        let n : Node = (h.key, dead h.age) in
        let n' : Node = (h.key, live 0 trace) in
        let found1 : node_at ptr s1.object_tree ≡ some n' =
          node_at-set_node ptr ptr n n' s.object_tree h.found refl ∙ rw (==_refl ptr) refl in
        let t =
          trim_tail-Trimmed s1 ptr h.key trace npages size sound1 found1 refl size_pages.0 le in
        let step = λ (w : Node → ℕ). total-set_node w ptr n n' s.object_tree h.found in
        let (done, free, same) =
          finished ptr t.tree t.object_map t.quarantine generational t.sound (λ w z. omega (
            arith,
            t.lives w z,
            step w,
            z h.key h.age,
            ap (λ (a : ℕ). w (record { addr = a; size = size }, live 0 trace)) h.starts,
          )) in
        rw (run, h.found, ◌>>=◌, t.run)
          (Allocates.reused ptr _ h.key h.age h.found le done free
            (ap (total (λ x. x.0.size)) same ∙ (omega (arith, t.bytes, step (λ x. x.0.size)))))

  -- Fresh pages that overlap no span.
  pub fresh_pages-Allocated :
      acquire_memory (npages * 2 ^ s.page_size_log2) ≢ 0
      → LiesApart
          (record {
            addr = acquire_memory (npages * 2 ^ s.page_size_log2);
            size = npages * 2 ^ s.page_size_log2;
          })
          s.object_tree
      → s.total_pages + npages < word_mod
      → Allocated s
          (acquire_memory (npages * 2 ^ s.page_size_log2))
          (npages * 2 ^ s.page_size_log2)
          trace
          (fresh_pages acquire_memory s npages (npages * 2 ^ s.page_size_log2) trace).1
  unfolding fresh_pages size_pages
  fresh_pages-Allocated some_memory l fits =
      let addr = acquire_memory size in
      let x : LargeObject = record { addr = addr; size = size } in
      let e : (addr == 0) ≡ false = ground arith in
      let pos = size_pages.0 in
      let a = v.sound.apart in
      let sums = λ (w : Node → ℕ). total-put x (live 0 trace) pos w s.object_tree a l in
      let log2 = s.page_size_log2 in
      let new = LiesApart-total x s.object_tree pos l a in
      let whole_pages = mul-mod_left npages (2 ^ log2) in
      rw e record {
        valid = record {
          sound = record {
            apart = IsApart-put x (live 0 trace) pos s.object_tree a l;
            whole = omega (arith, sums (odd_bytes log2), v.sound.whole, whole_pages);
            mapped = λ b. omega (
              arith,
              sums (at b),
              v.sound.mapped b,
              v.sound.mapped addr,
              new,
              count-add b addr s.object_map,
            );
            classes = v.sound.classes;
            quarantined = λ i b. omega (arith, sums (hole_at i b), v.sound.quarantined i b);
            mark_set = v.sound.mark_set;
            counted =
                ground
                  (arith, sums (marked_pages log2 s.marked), v.sound.counted, v.sound.mark_set);
            known = omega (arith, sums (node_pages log2), v.sound.known, size_pages);
            free_le = omega (arith, v.sound.free_le);
            fits = fits;
          };
          in_use = omega (arith, sums (live_pages log2), v.in_use, size_pages);
          young = λ b. omega (arith, sums (live_at b), v.young b);
        };
        lives = λ w z. sums w;
        marked_same = refl;
      }

  pub fresh_pages-Allocates :
      NoHole s size
      → (acquire_memory size ≢ 0
          → LiesApart (record { addr = acquire_memory size; size = size }) s.object_tree)
      → s.total_pages + npages < word_mod
      → Allocates acquire_memory s npages trace
          (some (fresh_pages acquire_memory s npages size trace))
  unfolding fresh_pages
  fresh_pages-Allocates no_hole apart fits = elim (Bool-cases (acquire_memory size == 0)) [
    | inl e ↦ rw e (Allocates.refused no_hole (ground arith))
    | inr e ↦
        let some_memory : acquire_memory size ≢ 0 = λ z. ground arith in
        let done = fresh_pages-Allocated some_memory (apart some_memory) fits in
        rw e (Allocates.fresh _ no_hole some_memory (rw e at done) refl)
  ]
