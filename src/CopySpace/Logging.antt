-- ===== src/CopySpace/Logging.antt =====
-- src/copy-space.h: which addresses are the space's, and the bits that log its fields. The bits of a
-- slab are in its first blocks for objects. A byte of bits is its eight bits, and setting one of them
-- by a compare-and-swap is one step.
pub mod Fields
use whippet.Base.{
  ℕ, ◌+◌, ◌*◌, ◌/◌, ◌%◌, Option, none, some, Bool, true, false, not, if◌then◌else◌, ltb, leb, ◌==◌,
  ◌&&◌, ◌>>=◌, ◌>>◌, assert,
}
use whippet.Extents as E
use whippet.Extents.{Extents}
use whippet.CopySpace.Layout.{align_down, slab_size, region_size, slab_payload, region_start}

-- The bit at an index of the byte at an address.
abbrev pub Log : Type 0
Log = ℕ → ℕ → Bool

abbrev pub field_size : ℕ
field_size = 8

unfoldable pub contains_address : Extents → ℕ → Option Bool
contains_address extents addr = do start ← E.contain_addr extents addr; some (not (start == 0))

unfoldable pub field_logged_byte : ℕ → ℕ
unfolding align_down
field_logged_byte edge =
    let base = align_down edge slab_size + slab_payload 0 0 in
    let field = edge % slab_size / field_size in base + field / 8

-- The index of the bit that the source shifts to.
unfoldable pub field_logged_bit : ℕ → ℕ
field_logged_bit edge = edge / field_size % 8

unfoldable pub set_bit : Log → ℕ → ℕ → Bool → Log
set_bit log byte bit value = λ a i. if (a == byte) && (i == bit) then value else log a i

-- Whether the edge was not logged before.
unfoldable pub remember_edge : Extents → Log → ℕ → Option (Bool × Log)
unfolding contains_address field_logged_byte field_logged_bit set_bit
remember_edge extents log edge = do
  inside ← contains_address extents edge
  assert inside
  let loc = field_logged_byte edge
  let bit = field_logged_bit edge
  if log loc bit then some (false, log) else some (true, set_bit log loc bit true)

-- Whether the edge was logged before.
unfoldable pub forget_edge : Extents → Log → ℕ → Option (Bool × Log)
unfolding contains_address field_logged_byte field_logged_bit set_bit
forget_edge extents log edge = do
  inside ← contains_address extents edge
  assert inside
  let loc = field_logged_byte edge
  let bit = field_logged_bit edge
  if log loc bit then some (true, set_bit log loc bit false) else some (false, log)

unfoldable pub clear_region : Extents → Bool → Log → ℕ → Option Log
unfolding contains_address field_logged_byte align_down
clear_region extents has_field_logging_bits log region_base = do
  assert (region_base == align_down region_base region_size)
  inside ← contains_address extents region_base
  assert inside
  let loc = field_logged_byte region_base
  if has_field_logging_bits
      then some (λ a i.
        if leb loc a && ltb a (loc + region_size / field_size / 8) then false else log a i)
      else some log

unfoldable pub clear_block : Extents → Bool → Log → ℕ → Option Log
unfolding clear_region region_start
clear_block extents has_field_logging_bits log block = do
  log' ← clear_region extents has_field_logging_bits log (region_start block false)
  clear_region extents has_field_logging_bits log' (region_start block true)
