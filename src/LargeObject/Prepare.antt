-- ===== src/LargeObject/Prepare.antt =====
-- The start of a collection, and the extents that it prepares for conservative roots.
use mathlib.Core.List.{append_assoc, append-nil}
use whippet.Base.{
  ℕ, ◌+◌, ◌*◌, ◌%◌, ◌≤◌, ◌<◌, ◌≡◌, ◌∙◌, refl, sym, ap, subst, All-imp, List, [], ◌∷◌, ◌++◌, Option,
  none, some, Bool, true, false, leb, ltb, arith, count, length, map, All, Bool-cases, inl, inr,
  ◌>>=◌, length-append, le→leb, if◌then◌else◌,
}
use whippet.Base.Word.{word_mod}
use whippet.Extents.{Extents, ExtentRange, make_range, follows, last_hi, append, prepare}
use whippet.Extents
use whippet.LargeObject.Space.{Node, Space, toggle, erase}
use whippet.LargeObject.Cycle.{append_extents, prepare_extents, start_mark, start_gc}
use whippet.LargeObject.Nodes.{total, at, end, IsApart}
use whippet.LargeObject.Valid.{marked_pages, IsValid, count-erase}

abbrev pub range_of : Node → ExtentRange
range_of n = make_range n.0.addr n.0.size

-- Spans end within 64 bits.
abbrev pub Fits : List Node → Type 0
Fits ns = All (λ n. end n < word_mod) ns

-- What stands before the next span.
abbrev Behind : Option ℕ → List Node → Type 0
Behind none ns = Unit
Behind (some hi) ns = All (λ n. hi ≤ n.0.addr) ns

last_hi-snoc : (rs : List ExtentRange) (r : ExtentRange) → last_hi (rs ++ r ∷ []) ≡ some r.hi_addr
last_hi-snoc [] r = refl
last_hi-snoc (s ∷ []) r = refl
last_hi-snoc (s ∷ t ∷ rs) r = last_hi-snoc (t ∷ rs) r

first_follows :
    (hi : Option ℕ) (n : Node) (ns : List Node) → Behind hi (n ∷ ns) → follows hi n.0.addr ≡ true
first_follows none n ns h = refl
first_follows (some hi) n ns h = le→leb hi n.0.addr h.0

range_end : (n : Node) → end n < word_mod → (P : ℕ → Type 0) → P (end n) → P (range_of n).hi_addr
unfolding make_range
range_end n f P p = let e : end n ≡ (end n) % word_mod = omega arith in subst P e p

append_run :
    (e : Extents) (lo bytes : ℕ)
    → Extents.size e + 1 ≤ e.capacity
    → follows (last_hi e.ranges) lo ≡ true
    → append e lo bytes ≡ some (record e { ranges = e.ranges ++ make_range lo bytes ∷ [] })
unfolding append
append_run e lo bytes room f = rw (le→leb (Extents.size e + 1) e.capacity room, f) refl

prepare_room :
    (e : Extents) (n : ℕ)
    → Extents.size e ≤ e.capacity
    → (n ≤ (prepare e n).capacity) × ((prepare e n).ranges ≡ [])
unfolding prepare
prepare_room e n h = elim (Bool-cases (leb n (Extents.size e))) [
  | inl small ↦ rw small (ground arith, refl)
  | inr large ↦ elim (Bool-cases (ltb (Extents.size e * 2) n)) [
    | inl more ↦ rw (large, more) (omega arith, refl)
    | inr enough ↦ rw (large, enough) (ground arith, refl)
  ]
]

length-erase : (a : ℕ) (keys : List ℕ) → 0 < count a keys → length (erase a keys) + 1 ≡ length keys
unfolding erase
length-erase a [] h = absurd (omega arith)
length-erase a (b ∷ keys) h = ground (arith, length-erase a keys)

-- A map that holds the start of every node has as many keys.
length-le-map :
    (ns : List Node) (keys : List ℕ)
    → ((a : ℕ) → total (at a) ns ≤ count a keys)
    → length ns ≤ length keys
length-le-map [] keys h = omega arith
length-le-map (n ∷ ns) keys h =
    let held : 0 < count n.0.addr keys = ground (arith, h n.0.addr) in
    let rest =
      length-le-map ns (erase n.0.addr keys)
        (λ a. omega (arith, h a, count-erase a n.0.addr keys held)) in
    omega (arith, rest, length-erase n.0.addr keys held)

-- Each span is appended, in order, as long as there is room.
append_extents-ranges :
    (ns : List Node) (e : Extents)
    → IsApart ns
    → Fits ns
    → Extents.size e + length ns ≤ e.capacity
    → Behind (last_hi e.ranges) ns
    → append_extents ns e ≡ some (record e { ranges = e.ranges ++ map range_of ns })
unfolding append_extents
append_extents-ranges [] e a f room b =
    ap (λ rs. some (record e { ranges = rs })) (sym (append-nil e.ranges))
append_extents-ranges (n ∷ ns) e (pos, al, a) (f, fs) room b =
    let r = range_of n in
    let e' : Extents = record e { ranges = e.ranges ++ r ∷ [] } in
    let more = length-append e.ranges (r ∷ []) in
    let run : Extents.append e n.0.addr n.0.size ≡ some e' =
      append_run e n.0.addr n.0.size (omega arith) (first_follows (last_hi e.ranges) n ns b) in
    let behind : Behind (last_hi e'.ranges) ns =
      subst (λ hi. Behind hi ns) (sym (last_hi-snoc e.ranges r))
        (All-imp (λ m h. range_end n f (λ (t : ℕ). t ≤ m.0.addr) h) ns al) in
    let rest = append_extents-ranges ns e' a fs (omega (arith, more)) behind in
    rw (run, ◌>>=◌)
      (rest
        ∙ ap (λ rs. some (record e { ranges = rs }))
            (append_assoc e.ranges (r ∷ []) (map range_of ns)))

-- A collection has started.
pub record Starts (s : Space) (conservative_roots is_minor_gc : Bool) (out : Option Space)
    : Type 0 where
  pub space : Space
  pub run : out ≡ some space
  pub valid : IsValid space
  pub nodes : space.object_tree ≡ s.object_tree
  pub ranges : conservative_roots ≡ true → space.extents.ranges ≡ map range_of s.object_tree
  pub mark : space.marked ≡ (if is_minor_gc then s.marked else toggle s.marked)
  pub counted :
      space.live_pages_at_last_collection
      ≡ (if is_minor_gc then s.live_pages_at_last_collection else 0)

-- Extents do not matter to what is valid.
with_extents-IsValid : (s : Space) (e : Extents) → IsValid s → IsValid (record s { extents = e })
with_extents-IsValid s e v = record {
  sound = record {
    apart = v.sound.apart;
    whole = v.sound.whole;
    mapped = v.sound.mapped;
    classes = v.sound.classes;
    quarantined = v.sound.quarantined;
    mark_set = v.sound.mark_set;
    counted = v.sound.counted;
    known = v.sound.known;
    free_le = v.sound.free_le;
    fits = v.sound.fits;
  };
  in_use = v.in_use;
  young = v.young;
}

toggle_odd : (m : ℕ) → m % 2 ≡ 1 → toggle m % 2 ≡ 1
toggle_odd m h = ground arith

start_mark-IsValid :
    (s : Space) (is_minor_gc : Bool)
    → IsValid s
    → (is_minor_gc ≡ false
        → total (marked_pages s.page_size_log2 (toggle s.marked)) s.object_tree ≡ 0)
    → IsValid (start_mark s is_minor_gc)
unfolding start_mark
start_mark-IsValid s true v q = v
start_mark-IsValid s false v q = record {
  sound = record {
    apart = v.sound.apart;
    whole = v.sound.whole;
    mapped = v.sound.mapped;
    classes = v.sound.classes;
    quarantined = v.sound.quarantined;
    mark_set = toggle_odd s.marked v.sound.mark_set;
    counted = sym (q refl);
    known = v.sound.known;
    free_le = v.sound.free_le;
    fits = v.sound.fits;
  };
  in_use = v.in_use;
  young = v.young;
}

marked-Starts :
    (s t : Space) (conservative_roots is_minor_gc : Bool)
    → IsValid t
    → t.object_tree ≡ s.object_tree
    → (conservative_roots ≡ true → t.extents.ranges ≡ map range_of s.object_tree)
    → t.marked ≡ s.marked
    → t.live_pages_at_last_collection ≡ s.live_pages_at_last_collection
    → (is_minor_gc ≡ false
        → total (marked_pages t.page_size_log2 (toggle t.marked)) t.object_tree ≡ 0)
    → Starts s conservative_roots is_minor_gc (some (start_mark t is_minor_gc))
unfolding start_mark
marked-Starts s t c true v n r m l q = record {
  space = t;
  run = refl;
  valid = v;
  nodes = n;
  ranges = r;
  mark = m;
  counted = l;
}
marked-Starts s t c false v n r m l q = record {
  space = start_mark t false;
  run = refl;
  valid = start_mark-IsValid t false v q;
  nodes = n;
  ranges = r;
  mark = ap toggle m;
  counted = refl;
}

-- Starting a collection of a valid space ends with no assertion failed and keeps it valid, where the
-- extents have room for what they hold, spans end within 64 bits, and, for a major one, no object has
-- the mark that is turned to. With conservative roots the extents are the spans of all objects, in
-- order; a major collection turns to the other mark and counts no page as live yet.
pub start_gc-Starts :
    (conservative_roots is_minor_gc : Bool) (s : Space)
    → IsValid s
    → Fits s.object_tree
    → Extents.size s.extents ≤ s.extents.capacity
    → (is_minor_gc ≡ false
        → total (marked_pages s.page_size_log2 (toggle s.marked)) s.object_tree ≡ 0)
    → Starts s conservative_roots is_minor_gc (start_gc conservative_roots s is_minor_gc)
unfolding start_gc prepare_extents
start_gc-Starts true is_minor_gc s v f room q =
    let e = prepare s.extents (length s.object_map) in
    let (cap, empty) = prepare_room s.extents (length s.object_map) room in
    let len = length-le-map s.object_tree s.object_map (λ a. omega (arith, v.sound.mapped a)) in
    let run =
      append_extents-ranges s.object_tree e v.sound.apart f
        (omega (arith, cap, len, ap length empty))
        (subst (λ rs. Behind (last_hi rs) s.object_tree) (sym empty) tt) in
    let e' : Extents = record e { ranges = e.ranges ++ map range_of s.object_tree } in
    rw (run, ◌>>=◌)
      (marked-Starts s (record s { extents = e' }) true is_minor_gc (with_extents-IsValid s e' v)
        refl (λ z. ap (λ rs. rs ++ map range_of s.object_tree) empty) refl refl q)
start_gc-Starts false is_minor_gc s v f room q =
    marked-Starts s s false is_minor_gc v refl (λ z. cc) refl refl q
