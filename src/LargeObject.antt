-- ===== src/LargeObject.antt =====
-- src/large-object-space.h: the mark-sweep space of large objects.
pub mod Span
pub mod Space
pub mod Alloc
pub mod Cycle
pub mod Nodes
pub mod Insertion
pub mod Valid
pub mod Mark
pub mod Sweep
pub mod Round
pub mod Quarantine
pub mod Lists
pub mod Trim
pub mod FindHole
pub mod Granted
pub mod Allocate
pub mod Finish
pub mod Prepare
pub mod Conservative
pub mod Nursery
mod Tests
