-- ===== src/LargeObject/Finish.antt =====
-- The end of a collection.
use whippet.Base.{
  ℕ, ◌+◌, ◌-◌, ◌≤◌, ◌<◌, ◌≡◌, ◌∙◌, refl, ap, List, [], Option, none, some, Bool, true, false, ◌&&◌,
  if◌then◌else◌, arith, count, All-of_count, Bool-cases, inl, inr, ◌>>=◌,
}
use whippet.Base.Word.{sub_word}
use whippet.LargeObject.Span.{LargeObject}
use whippet.LargeObject.Space.{live, dead, Node, Space, node_at, contains}
use whippet.LargeObject.Cycle.{
  sweep, sweep_all, clear_extents, count_pages, finish_gc, process_quarantine,
}
use whippet.LargeObject.Nodes.{at, total-le}
use whippet.LargeObject.Insertion.{node_at-none}
use whippet.LargeObject.Valid.{
  live_at, live_pages, node_pages, marked_pages, IsSound, IsValid, contains-count,
}
use whippet.LargeObject.Sweep.{Sweeps, sweep_all-Sweeps, swept, map_some, with_nodes}
use whippet.LargeObject.Round.{aged}
use whippet.LargeObject.Lists.{live_only, process_quarantine-Processes}

-- Whether the sweep comes to an address: of the nursery in a minor collection, else of every object.
abbrev pub is_swept : Bool → Space → Bool → ℕ → Bool
is_swept generational s is_minor_gc b =
    if generational && is_minor_gc then contains b s.nursery else true

-- What the sweep leaves live.
abbrev pub survivor : ℕ → Bool → Option Node → Option Node
survivor marked true o = live_only (map_some (swept marked) o)
survivor marked false o = live_only o

-- What the sweep does, whatever becomes of the nursery.
record Swept (s : Space) (is_swept_at : ℕ → Bool) (out : Option Space) : Type 0 where
  tree : List Node
  quarantine : List (List ℕ)
  nursery : List ℕ
  run : out ≡ some (record (with_nodes s tree quarantine) { nursery = nursery })
  sound : IsSound (with_nodes s tree quarantine)
  no_young : (a : ℕ) → count a nursery ≡ 0
  nodes :
      (b : ℕ)
      → live_only (node_at b tree) ≡ survivor s.marked (is_swept_at b) (node_at b s.object_tree)

live_at-le-at : (a : ℕ) (n : Node) → live_at a n ≤ at a n
live_at-le-at a (key, live m t) = omega arith
live_at-le-at a (key, dead age) = omega arith

survivor-if :
    (marked : ℕ) (p : Bool) (o : Option Node)
    → live_only (if p then map_some (swept marked) o else o) ≡ survivor marked p o
survivor-if marked true o = refl
survivor-if marked false o = refl

module _ (s : Space) (v : IsValid s) where
  swept_nursery : Sweeps s (λ b. contains b s.nursery) (sweep_all s.nursery s)
  swept_nursery = sweep_all-Sweeps s.nursery s v.sound (
      All-of_count (λ ptr. 0 < count ptr s.object_map) s.nursery
        (λ a held. omega (
          arith,
          held,
          v.young a,
          v.sound.mapped a,
          total-le (live_at a) (at a) (live_at-le-at a) s.object_tree,
        )))

  swept_map : Sweeps s (λ b. contains b s.object_map) (sweep_all s.object_map s)
  swept_map =
      sweep_all-Sweeps s.object_map s v.sound
        (All-of_count (λ ptr. 0 < count ptr s.object_map) s.object_map (λ a held. held))

  -- The map has every node, so a sweep of it is one of all.
  everywhere :
      (b : ℕ)
      → survivor s.marked (contains b s.object_map) (node_at b s.object_tree)
        ≡ survivor s.marked true (node_at b s.object_tree)
  everywhere b = elim (Bool-cases (contains b s.object_map)) [
    | inl e ↦ rw e refl
    | inr e ↦
        let nothing : node_at b s.object_tree ≡ none =
          node_at-none b s.object_tree
            (ground (arith, v.sound.mapped b, contains-count b s.object_map)) in
        rw (e, nothing) refl
  ]

  sweep-Swept :
      (generational is_minor_gc : Bool)
      → (generational ≡ false → s.nursery ≡ [])
      → Swept s (is_swept generational s is_minor_gc) (sweep generational s is_minor_gc)
  unfolding sweep
  sweep-Swept true true h =
      let w = swept_nursery in
      rw (w.run, ◌>>=◌)
        record {
          tree = w.tree;
          quarantine = w.quarantine;
          nursery = [];
          run = refl;
          sound = w.sound;
          no_young = λ a. refl;
          nodes = λ b.
              ap live_only (w.nodes b)
              ∙ survivor-if s.marked (contains b s.nursery) (node_at b s.object_tree);
        }
  sweep-Swept true false h =
      let w = swept_map in
      rw (w.run, ◌>>=◌)
        record {
          tree = w.tree;
          quarantine = w.quarantine;
          nursery = [];
          run = refl;
          sound = w.sound;
          no_young = λ a. refl;
          nodes = λ b.
              ap live_only (w.nodes b)
              ∙ survivor-if s.marked (contains b s.object_map) (node_at b s.object_tree)
              ∙ everywhere b;
        }
  sweep-Swept false is_minor_gc h =
      let w = swept_map in
      record {
        tree = w.tree;
        quarantine = w.quarantine;
        nursery = s.nursery;
        run = w.run;
        sound = w.sound;
        no_young = λ a. ap (count a) (h refl);
        nodes = λ b.
            ap live_only (w.nodes b)
            ∙ survivor-if s.marked (contains b s.object_map) (node_at b s.object_tree)
            ∙ everywhere b;
      }

clear_extents-IsValid :
    (conservative_roots : Bool) (s : Space)
    → IsValid s
    → IsValid (clear_extents conservative_roots s)
unfolding clear_extents
clear_extents-IsValid true s v = record {
  sound = record {
    apart = v.sound.apart;
    whole = v.sound.whole;
    mapped = v.sound.mapped;
    classes = v.sound.classes;
    quarantined = v.sound.quarantined;
    mark_set = v.sound.mark_set;
    counted = v.sound.counted;
    known = v.sound.known;
    free_le = v.sound.free_le;
    fits = v.sound.fits;
  };
  in_use = v.in_use;
  young = v.young;
}
clear_extents-IsValid false s v = v

-- A collection has ended.
pub record Ends (s : Space) (is_swept_at : ℕ → Bool) (out : Option (List LargeObject × Space))
    : Type 0 where
  pub released : List LargeObject
  pub space : Space
  pub run : out ≡ some (released, space)
  pub valid : IsValid space
  pub nodes :
      (b : ℕ)
      → live_only (node_at b space.object_tree)
        ≡ survivor s.marked (is_swept_at b) (node_at b s.object_tree)
  pub no_young : (a : ℕ) → count a space.nursery ≡ 0
  pub pages : space.free_pages + s.live_pages_at_last_collection ≡ s.total_pages
  pub same :
      (space.total_pages ≡ s.total_pages)
      × (space.live_pages_at_last_collection ≡ s.live_pages_at_last_collection)
      × (space.marked ≡ s.marked)

live_only-aged : (o : Option Node) → live_only (aged o) ≡ live_only o
live_only-aged none = refl
live_only-aged (some (key, live m t)) = refl
live_only-aged (some (key, dead age)) = ground arith

marked-le-live : (log2 marked : ℕ) (n : Node) → marked_pages log2 marked n ≤ live_pages log2 n
marked-le-live log2 marked (key, live m t) = ground arith
marked-le-live log2 marked (key, dead age) = omega arith

live-le-node : (log2 : ℕ) (n : Node) → live_pages log2 n ≤ node_pages log2 n
live-le-node log2 (key, live m t) = omega arith
live-le-node log2 (key, dead age) = omega arith

-- The counts behind the sweep.
counted-IsValid :
    (s : Space) (tree : List Node) (quarantine : List (List ℕ)) (nursery : List ℕ)
    → IsSound (with_nodes s tree quarantine)
    → ((a : ℕ) → count a nursery ≡ 0)
    → let t = count_pages (record (with_nodes s tree quarantine) { nursery = nursery }) in
      IsValid t × (t.free_pages + s.live_pages_at_last_collection ≡ s.total_pages)
unfolding count_pages
counted-IsValid s tree quarantine nursery v young =
    let log2 = s.page_size_log2 in
    let a =
      total-le (marked_pages log2 s.marked) (live_pages log2) (marked-le-live log2 s.marked) tree in
    let b = total-le (live_pages log2) (node_pages log2) (live-le-node log2) tree in
    let less : sub_word s.total_pages s.live_pages_at_last_collection
        ≡ s.total_pages - s.live_pages_at_last_collection =
      omega (arith, a, b, v.known, v.counted, v.fits) in
    (
      record {
        sound = record {
          apart = v.apart;
          whole = v.whole;
          mapped = v.mapped;
          classes = v.classes;
          quarantined = v.quarantined;
          mark_set = v.mark_set;
          counted = v.counted;
          known = v.known;
          free_le = omega (arith, less);
          fits = v.fits;
        };
        in_use = omega (arith, less, a, v.counted);
        young = λ x. omega (arith, young x);
      },
      omega (arith, less, a, b, v.known, v.counted),
    )

finish_from-Ends :
    (generational is_minor_gc : Bool) (s : Space)
    → IsValid s
    → (generational ≡ false → s.nursery ≡ [])
    → Ends s (is_swept generational s is_minor_gc) (do
      s' ← sweep generational s is_minor_gc
      let s'' = count_pages s'
      elim s''.synchronous_release [ true ↦ process_quarantine s'' | false ↦ some ([], s'') ])
unfolding count_pages
finish_from-Ends generational is_minor_gc s v h =
    let w = sweep-Swept s v generational is_minor_gc h in
    let t = count_pages (record (with_nodes s w.tree w.quarantine) { nursery = w.nursery }) in
    let (valid, pages) = counted-IsValid s w.tree w.quarantine w.nursery w.sound w.no_young in
    elim (Bool-cases s.synchronous_release) [
      | inl e ↦
          let q = process_quarantine-Processes t valid in
          let (tp, fp, lp, m, n, l) = q.kept in
          rw (w.run, ◌>>=◌, e)
            record {
              released = q.released;
              space = q.space;
              run = q.run;
              valid = q.valid;
              nodes = λ b. ap live_only (q.nodes b) ∙ live_only-aged (node_at b w.tree) ∙ w.nodes b;
              no_young = λ a. ap (count a) n ∙ w.no_young a;
              pages = omega (arith, fp, pages);
              same = (tp, lp, m);
            }
      | inr e ↦
          rw (w.run, ◌>>=◌, e)
            record {
              released = [];
              space = t;
              run = refl;
              valid = valid;
              nodes = w.nodes;
              no_young = w.no_young;
              pages = pages;
              same = (refl, refl, refl);
            }
    ]

-- Ending a collection of a valid space ends with no assertion failed and keeps the space valid; without
-- generations the nursery is taken to be empty. A live object stays as it is if it is marked, or if the
-- sweep does not come to it: in a minor collection it comes to the nursery alone; every other live
-- object is live no more, and no new one is. The nursery is empty, and all pages but those of marked
-- objects count as free, whether dead objects are released at once or not.
pub finish_gc-Ends :
    (generational conservative_roots is_minor_gc : Bool) (s : Space)
    → IsValid s
    → (generational ≡ false → s.nursery ≡ [])
    → Ends s
        (is_swept generational s is_minor_gc)
        (finish_gc generational conservative_roots s is_minor_gc)
unfolding finish_gc clear_extents
finish_gc-Ends generational true is_minor_gc s v h =
    let s0 = clear_extents true s in
    let e = finish_from-Ends generational is_minor_gc s0 (clear_extents-IsValid true s v) h in
    record {
      released = e.released;
      space = e.space;
      run = e.run;
      valid = e.valid;
      nodes = e.nodes;
      no_young = e.no_young;
      pages = e.pages;
      same = e.same;
    }
finish_gc-Ends generational false is_minor_gc s v h =
    finish_from-Ends generational is_minor_gc s v h
