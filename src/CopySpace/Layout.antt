-- ===== src/CopySpace/Layout.antt =====
-- src/copy-space.h and src/gc-align.h: the addresses of slabs, block headers, payloads and regions.
use whippet.Base.{ℕ, ◌+◌, ◌-◌, ◌*◌, ◌/◌, ◌%◌, ◌≤◌, ◌<◌, ◌≡◌, Bool, true, false, arith, tick}

-- `addr & ~(align - 1)`; the alignment is a power of two at every call.
unfoldable pub align_down : ℕ → ℕ → ℕ
align_down addr align = addr / align * align

unfoldable pub align_up : ℕ → ℕ → ℕ
unfolding align_down
align_up addr align = align_down (addr + align - 1) align

abbrev pub slab_size : ℕ
slab_size = 64 * 1024 * 1024

abbrev pub region_size : ℕ
region_size = 64 * 1024

abbrev pub block_size : ℕ
block_size = 2 * region_size

abbrev pub blocks_per_slab : ℕ
blocks_per_slab = slab_size / block_size

abbrev pub header_bytes_per_block : ℕ
header_bytes_per_block = block_size / blocks_per_slab

abbrev pub header_blocks_per_slab : ℕ
header_blocks_per_slab = 1

abbrev pub nonheader_blocks_per_slab : ℕ
nonheader_blocks_per_slab = blocks_per_slab - header_blocks_per_slab

abbrev pub header_bytes_per_slab : ℕ
header_bytes_per_slab = header_bytes_per_block * header_blocks_per_slab

-- `&slab->headers[i]` and `&slab->blocks[i]` of the slab at `base`.
abbrev pub slab_header : ℕ → ℕ → ℕ
slab_header base i = base + header_bytes_per_slab + i * header_bytes_per_block

abbrev pub slab_payload : ℕ → ℕ → ℕ
slab_payload base i =
    base
    + header_bytes_per_slab
    + nonheader_blocks_per_slab * header_bytes_per_block
    + i * block_size

unfoldable pub block_for_addr : ℕ → ℕ
unfolding align_down
block_for_addr addr =
    let base = align_down addr slab_size in
    let block_idx = (addr / block_size) % blocks_per_slab in
    slab_header base (block_idx - header_blocks_per_slab)

unfoldable pub block_payload : ℕ → ℕ
unfolding align_down
block_payload block =
    let base = align_down block slab_size in
    let block_idx = (block / header_bytes_per_block) % blocks_per_slab in
    slab_payload base (block_idx - header_blocks_per_slab)

-- `&payload->regions[region]`.
unfoldable pub region_start : ℕ → Bool → ℕ
unfolding block_payload
region_start block region = block_payload block + tick region * region_size

pub region_start-aligned : (block : ℕ) (region : Bool) → region_start block region % region_size ≡ 0
unfolding region_start block_payload align_down
region_start-aligned block true = omega arith
region_start-aligned block false = omega arith

-- 0 or 1 in the source.
unfoldable pub object_region : ℕ → ℕ
object_region obj = (obj / region_size) % 2

-- From any address behind the header block of a slab, the block's header leads back to the payload
-- that holds the address, and the header's own place is in the slab's first block, behind the slab's
-- header.
pub block_payload-block_for_addr :
    (addr : ℕ)
    → block_size ≤ addr % slab_size
    → (block_payload (block_for_addr addr) ≡ align_down addr block_size)
      × (header_bytes_per_slab ≤ block_for_addr addr % slab_size)
      × (block_for_addr addr % slab_size < block_size)
      × (align_down (block_for_addr addr) slab_size ≡ align_down addr slab_size)
unfolding block_payload block_for_addr align_down
block_payload-block_for_addr addr h = omega arith

-- Every address of a region of a block that stands behind a slab's header belongs to the block's
-- payload, is in the region that its bit tells, and leads back to the block.
pub region_start_lem :
    (block i : ℕ) (region : Bool)
    → header_bytes_per_slab ≤ block % slab_size
    → block % slab_size < block_size
    → block % header_bytes_per_block ≡ 0
    → i < region_size
    → (object_region (region_start block region + i) ≡ tick region)
      × (block_for_addr (region_start block region + i) ≡ block)
      × (region_start block region % region_size ≡ 0)
unfolding region_start object_region block_for_addr block_payload align_down
region_start_lem block i true h1 h2 h3 h4 = omega arith
region_start_lem block i false h1 h2 h3 h4 = omega arith
