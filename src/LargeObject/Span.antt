-- ===== src/LargeObject/Span.antt =====
-- src/large-object-space.h: the keys of the object tree, spans of addresses.
use Prim.Native.Nat.{Ordering}
use Prim.Native.Nat.Ordering.{lt, eq, gt}
use whippet.Base.{ℕ, ◌+◌, ◌-◌, ◌≤◌, ◌<◌, ◌≡◌, ◌⊎◌, ◌↔◌, ltb, ◌==◌, ◌&&◌, Bool, if◌then◌else◌, arith}
use whippet.SplayTree.Order.{Before}

pub record LargeObject : Type 0 where
  pub addr : ℕ
  pub size : ℕ

unfoldable pub large_object_compare : ℕ → LargeObject → Ordering
large_object_compare addr obj =
    if ltb addr obj.addr then lt else if ltb (addr - obj.addr) obj.size then eq else gt

unfoldable pub large_object_span_start : LargeObject → ℕ
large_object_span_start obj = obj.addr

-- `memcmp` of two keys.
unfoldable pub large_object_same : LargeObject → LargeObject → Bool
large_object_same a b = a.addr == b.addr && a.size == b.size

-- A span that is not empty is before another, for every address, exactly if it ends where the
-- other starts or below, so a tree of objects is ordered exactly if they lie apart and in order.
pub Before-iff :
    (a b : LargeObject) → 0 < a.size → Before large_object_compare a b ↔ (a.addr + a.size ≤ b.addr)
unfolding large_object_compare
Before-iff a b pos = (λ h. ground (arith, h (a.addr + a.size - 1)), λ h key n. ground arith)

compare_gt :
    (x e : LargeObject)
    → (e.addr + e.size ≤ x.addr) ⊎ (x.addr + x.size ≤ e.addr)
    → 0 < e.size
    → large_object_compare x.addr e ≡ gt
    → e.addr + e.size ≤ x.addr
unfolding large_object_compare
compare_gt x e h pe c = ground arith

compare_lt :
    (x e : LargeObject)
    → (e.addr + e.size ≤ x.addr) ⊎ (x.addr + x.size ≤ e.addr)
    → 0 < e.size
    → large_object_compare x.addr e ≡ lt
    → x.addr + x.size ≤ e.addr
unfolding large_object_compare
compare_lt x e h pe c = ground arith

-- A span that overlaps another nowhere stands on the side of it that its start tells.
pub compare_apart :
    (x e : LargeObject)
    → 0 < x.size
    → 0 < e.size
    → (e.addr + e.size ≤ x.addr) ⊎ (x.addr + x.size ≤ e.addr)
    → (large_object_compare x.addr e ≡ gt → Before large_object_compare e x)
      × (large_object_compare x.addr e ≡ lt → Before large_object_compare x e)
compare_apart x e px pe h = (
  λ c. (Before-iff e x pe).1 (compare_gt x e h pe c),
  λ c. (Before-iff x e px).1 (compare_lt x e h pe c),
)
