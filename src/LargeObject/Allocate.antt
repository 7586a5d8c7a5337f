-- ===== src/LargeObject/Allocate.antt =====
-- Allocation from the quarantine and from fresh pages.
use native.Mathlib.Decide.{dec_lt}
use native.Mathlib.Nat.{mod-eq_of_lt}
use whippet.Base.{
  ℕ, ◌+◌, ◌-◌, ◌*◌, ◌^◌, ◌≤◌, ◌<◌, ◌≡◌, ◌≢◌, ◌∙◌, sym, ap, subst, [], Option, none, some, Bool,
  arith, count, ◌>>=◌, get_or, drop,
}
use whippet.Base.Word.{word_mod}
use whippet.Histogram.{bucket-le-bucket}
use whippet.LargeObject.Span.{LargeObject}
use whippet.LargeObject.Space.{TraceKind, dead, Node, Space, node_at, size_class}
use whippet.LargeObject.Alloc.{find_hole, take_hole, fresh_pages, alloc}
use whippet.LargeObject.Nodes.{LiesApart, total_only, node_at-addr, IsApart-total}
use whippet.LargeObject.Valid.{hole_at, IsValid}
use whippet.LargeObject.Round.{Hole, hole-Hole, hole_at-le-at}
use whippet.LargeObject.FindHole.{
  All-nodes, get_or-drop, Finds, found_in, none_found, find_hole-Finds, HasNode,
}
use whippet.LargeObject.Granted.{
  NoHole, Allocates, reused, fresh, refused, take_hole-Allocates, fresh_pages-Allocates,
}

module _ (acquire_memory : ℕ → ℕ) (s : Space) (npages : ℕ) (trace : TraceKind) (v : IsValid s)
    (some_pages : 0 < npages) where
  abbrev bytes : ℕ
  bytes = npages * 2 ^ s.page_size_log2

  hole_of : (j ptr : ℕ) → 0 < count ptr (get_or s.quarantine j []) → Hole j ptr s.object_tree
  hole_of j ptr held =
      hole-Hole j ptr s.object_tree v.sound.apart (omega (arith, v.sound.quarantined j ptr, held))

  held_of :
      (a : ℕ) (key : LargeObject) (age : ℕ)
      → node_at a s.object_tree ≡ some (key, dead age)
      → 0 < count a (get_or s.quarantine (size_class key.size) [])
  held_of a key age found =
      let class = size_class key.size in
      let only =
        total_only (hole_at class a) a (key, dead age) s.object_tree (hole_at-le-at class a) found
          (IsApart-total a s.object_tree v.sound.apart) in
      ground (
        arith,
        only,
        v.sound.quarantined class a,
        node_at-addr a (key, dead age) s.object_tree found,
      )

  drop_held :
      (c j a : ℕ) → 0 < count a (get_or (drop c s.quarantine) j []) → HasNode s.object_tree a
  drop_held c j a held =
      let h =
        hole_of (c + j) a (omega (arith, held, ap (count a) (get_or-drop c j s.quarantine))) in
      ((h.key, dead h.age), h.found)

  no_hole :
      ((j ptr : ℕ) (n : Node)
        → 0 < count ptr (get_or (drop (size_class (bytes)) s.quarantine) j [])
        → node_at ptr s.object_tree ≡ some n
        → n.0.size < bytes)
      → NoHole s bytes
  no_hole f a key age found small = elim (dec_lt key.size bytes) [
    | yes lt ↦ lt
    | no ge ↦
        let c = size_class bytes in
        let j = size_class key.size - c in
        let le : c ≤ size_class key.size = bucket-le-bucket bytes key.size (omega arith) small in
        let at_class : c + j ≡ size_class key.size = omega (arith, le) in
        let there =
          get_or-drop c j s.quarantine ∙ ap (λ (k : ℕ). get_or s.quarantine k []) at_class in
        f j a (key, dead age) (omega (arith, ap (count a) there, held_of a key age found)) found
  ]

  alloc_found :
      (generational : Bool) (out : Option (Option ℕ))
      → Finds s.object_tree bytes (drop (size_class (bytes)) s.quarantine) out
      → (acquire_memory bytes ≢ 0
          → LiesApart (record { addr = acquire_memory bytes; size = bytes }) s.object_tree)
      → s.total_pages + npages < word_mod
      → Allocates acquire_memory s npages trace (
          out >>= λ found. elim found [
            | some ptr ↦ take_hole generational s ptr npages bytes trace
            | none ↦ some (fresh_pages acquire_memory s npages bytes trace)
          ])
  alloc_found generational out (found_in j ptr n held found le) apart fits =
      let at_class = get_or-drop (size_class (bytes)) j s.quarantine in
      let held' : 0 < count ptr (get_or s.quarantine (size_class bytes + j) []) =
        omega (arith, ap (count ptr) at_class) in
      let h = hole_of (size_class bytes + j) ptr held' in
      let same : n ≡ (h.key, dead h.age) = cc (h.found) in
      take_hole-Allocates acquire_memory s npages trace v some_pages generational
        (size_class bytes + j) ptr h held' (omega (arith, ap (λ (t : Node). t.0.size) same))
  alloc_found generational out (none_found f) apart fits =
      fresh_pages-Allocates acquire_memory s npages trace v some_pages (no_hole f) apart fits

-- Allocating at least a page in a valid space ends with no assertion failed, where the platform
-- grants memory that overlaps no object, and the bytes asked for, and the space's pages with the new
-- ones, are fewer than 2^64. It reuses the front of a hole that is large enough and loses no byte of
-- the rest; or, where no hole is, takes what the platform grants, or answers null, with the space as
-- it was. On success exactly the new object, of the size asked for, is added to the live ones, it
-- overlaps no other, and the space stays valid.
pub alloc-Allocates :
    (generational : Bool) (acquire_memory : ℕ → ℕ) (s : Space) (npages : ℕ) (trace : TraceKind)
    → IsValid s
    → 0 < npages
    → (acquire_memory (npages * 2 ^ s.page_size_log2) ≢ 0
        → LiesApart
            (record {
              addr = acquire_memory (npages * 2 ^ s.page_size_log2);
              size = npages * 2 ^ s.page_size_log2;
            })
            s.object_tree)
    → npages * 2 ^ s.page_size_log2 < word_mod
    → s.total_pages + npages < word_mod
    → Allocates acquire_memory s npages trace (alloc generational acquire_memory s npages trace)
unfolding alloc
alloc-Allocates generational acquire_memory s npages trace v pos apart small fits =
    subst
      (λ size. Allocates acquire_memory s npages trace (
        find_hole s.object_tree size (drop (size_class size) s.quarantine) >>= λ found. elim found [
          | some ptr ↦ take_hole generational s ptr npages size trace
          | none ↦ some (fresh_pages acquire_memory s npages size trace)
        ]))
      (sym (mod-eq_of_lt small))
      (alloc_found acquire_memory s npages trace v pos generational _
        (find_hole-Finds s.object_tree (npages * 2 ^ s.page_size_log2) _
          (All-nodes s.object_tree _ (drop_held acquire_memory s npages trace v pos _)))
        apart fits)

abbrev second : Space → Option (ℕ × Space) → Space
second s none = s
second s (some (a, t)) = t

-- Whatever an allocation answers, the space behind it is valid.
pub Allocates-IsValid :
    (acquire_memory : ℕ → ℕ) (s s' : Space) (npages addr : ℕ) (trace : TraceKind)
    (out : Option (ℕ × Space))
    → IsValid s
    → Allocates acquire_memory s npages trace out
    → out ≡ some (addr, s')
    → IsValid s'
Allocates-IsValid acquire_memory s s' npages addr trace out v
      (reused a t key age found le done free rest) e =
    subst IsValid (ap (second t) e) done.valid
Allocates-IsValid acquire_memory s s' npages addr trace out v (fresh t no_hole memory done pages)
      e =
    subst IsValid (ap (second t) e) done.valid
Allocates-IsValid acquire_memory s s' npages addr trace out v (refused no_hole memory) e =
    subst IsValid (ap (second s) e) v
