-- ===== src/CopySpace.antt =====
-- src/copy-space.h: the block-structured evacuating space. A block is in one list, or held by one
-- allocator, so lists hold the headers by value, under the header's address; the `next` links are the
-- lists. Each atomic push or pop is one step. The contents of the payloads are not modelled but for
-- the bits that log fields.
pub mod Layout
pub mod State
pub mod Alloc
pub mod PageOut
pub mod PageIn
pub mod Grow
pub mod Init
pub mod Logging
mod Tests
