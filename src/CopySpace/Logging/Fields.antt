-- ===== src/CopySpace/Logging/Fields.antt =====
-- Each field has a bit of its own, and a region's fields have the bytes that clearing it writes.
use whippet.Base.{
  ℕ, ◌+◌, ◌*◌, ◌/◌, ◌%◌, ◌≤◌, ◌<◌, ◌≡◌, ◌≢◌, ◌↔◌, refl, some, Bool, true, false, not, if◌then◌else◌,
  ltb, leb, ◌==◌, ◌&&◌, arith, Bool-cases, inl, inr, ◌⊎◌,
}
use whippet.Extents.{Extents}
use whippet.CopySpace.Layout.{align_down, slab_size, region_size, slab_payload}
use whippet.CopySpace.Logging.{
  Log, contains_address, field_logged_byte, field_logged_bit, set_bit, remember_edge, forget_edge,
  clear_region, field_size,
}

abbrev pub logged : Log → ℕ → Bool
logged log edge = log (field_logged_byte edge) (field_logged_bit edge)

-- Two edges with the same bit are in the same field.
pub same_field :
    (e e' : ℕ)
    → field_logged_byte e ≡ field_logged_byte e'
    → field_logged_bit e ≡ field_logged_bit e'
    → e / field_size ≡ e' / field_size
unfolding field_logged_byte field_logged_bit align_down
same_field e e' h k = omega arith

-- The bits are in the slab's first eight blocks for objects, and the bytes of a region's fields are
-- those that clearing the region writes, and no other field's.
pub field_logged_byte_lem :
    (e base : ℕ)
    → base % region_size ≡ 0
    → (align_down e slab_size + slab_payload 0 0 ≤ field_logged_byte e)
      × (field_logged_byte e < align_down e slab_size + slab_payload 0 8)
      × (((base ≤ e) × (e < base + region_size)) ↔ (
          (field_logged_byte base ≤ field_logged_byte e)
          × (field_logged_byte e < field_logged_byte base + region_size / field_size / 8)))
unfolding field_logged_byte align_down
field_logged_byte_lem e base h = (
  omega arith,
  omega arith,
  (λ (a, b). (omega arith, omega arith), λ (a, b). (omega arith, omega arith)),
)

logged-set_bit :
    (log : Log) (e : ℕ) (value : Bool)
    → let log' = set_bit log (field_logged_byte e) (field_logged_bit e) value in
      (logged log' e ≡ value)
      × ((e' : ℕ) → e' / field_size ≢ e / field_size → logged log' e' ≡ logged log e')
unfolding set_bit
logged-set_bit log e value = (ground arith, λ e' ne. ground (arith, same_field e' e))

-- An edge's bit was set to `value`, and the answer tells whether that changed it.
pub record Logs (log : Log) (edge : ℕ) (value : Bool) (log' : Log) : Type 0 where
  pub set_to : logged log' edge ≡ value
  pub others : (e' : ℕ) → e' / field_size ≢ edge / field_size → logged log' e' ≡ logged log e'

set-Logs :
    (log : Log) (e : ℕ) (value : Bool)
    → Logs log e value (set_bit log (field_logged_byte e) (field_logged_bit e) value)
set-Logs log e value =
    let (at, rest) = logged-set_bit log e value in record { set_to = at; others = rest }

-- Remembering an edge of the space passes its assertion: it answers whether the edge was not logged, and
-- then the edge's field is logged, and every other field as before.
pub remember_edge-Logs :
    (extents : Extents) (log : Log) (edge : ℕ)
    → contains_address extents edge ≡ some true
    → (log' : Log) × (remember_edge extents log edge ≡ some (not (logged log edge), log'))
      × Logs log edge true log'
unfolding remember_edge
remember_edge-Logs extents log edge h = elim (Bool-cases (logged log edge)) [
  | inl e ↦ (log, rw (h, e) refl, record { set_to = e; others = λ e' ne. refl })
  | inr e ↦ (_, rw (h, e) refl, set-Logs log edge true)
]

-- Forgetting an edge of the space passes its assertion: it answers whether the edge was logged, and then
-- the edge's field is not, and every other field as before.
pub forget_edge-Logs :
    (extents : Extents) (log : Log) (edge : ℕ)
    → contains_address extents edge ≡ some true
    → (log' : Log) × (forget_edge extents log edge ≡ some (logged log edge, log'))
      × Logs log edge false log'
unfolding forget_edge
forget_edge-Logs extents log edge h = elim (Bool-cases (logged log edge)) [
  | inl e ↦ (_, rw (h, e) refl, set-Logs log edge false)
  | inr e ↦ (log, rw (h, e) refl, record { set_to = e; others = λ e' ne. refl })
]

-- Clearing an aligned region of the space passes its assertions. Where fields are logged, it leaves no
-- field of the region logged and every other field as it was.
pub clear_region-logged :
    (extents : Extents) (log : Log) (base : ℕ)
    → base % region_size ≡ 0
    → contains_address extents base ≡ some true
    → (log' : Log) × (clear_region extents true log base ≡ some log')
      × ((e : ℕ) → base ≤ e → e < base + region_size → logged log' e ≡ false)
      × ((e : ℕ) → (e < base) ⊎ (base + region_size ≤ e) → logged log' e ≡ logged log e)
unfolding clear_region align_down
clear_region-logged extents log base aligned h =
    let whole : (base == base / region_size * region_size) ≡ true = ground arith in
    (
      λ a i.
          if leb (field_logged_byte base) a
            && ltb a (field_logged_byte base + region_size / field_size / 8)
          then false
          else log a i,
      rw (whole, h) refl,
      λ e low high. ground (arith, (field_logged_byte_lem e base aligned).2.0 (low, high)),
      λ e outside.
          let back = (field_logged_byte_lem e base aligned).2.1 in ground (arith, back, outside),
    )

-- Outside the region at `base`, each field is logged as before.
abbrev pub LogKept : ℕ → Log → Log → Type 0
LogKept base log log' =
    (e : ℕ) → (e < base) ⊎ (base + region_size ≤ e) → logged log' e ≡ logged log e

pub clear_region-LogKept :
    (extents : Extents) (has_field_logging_bits : Bool) (log : Log) (base : ℕ)
    → base % region_size ≡ 0
    → contains_address extents base ≡ some true
    → (log' : Log) × (clear_region extents has_field_logging_bits log base ≡ some log')
      × LogKept base log log'
unfolding clear_region align_down
clear_region-LogKept extents true log base aligned h =
    let (log', e, _, kept) = clear_region-logged extents log base aligned h in (log', e, kept)
clear_region-LogKept extents false log base aligned h =
    let whole : (base == base / region_size * region_size) ≡ true = ground arith in
    (log, rw (whole, h) refl, λ e outside. refl)
