-- ===== src/Lib.antt =====
-- Whippet, a garbage collector library in C: models of the data structures that its collectors are
-- built from, and the theorems that make them correct.
--
-- The program. A collector (`src/semi.c`, `src/pcc.c`, `src/mmc.c`) owns spaces: the block-structured
-- copy space (`src/copy-space.h`), the nofl space (`src/nofl-space.h`), which allocates in holes, and
-- the large object space (`src/large-object-space.h`). A space asks its extents whether an address is
-- its own, finds a large object in a splay tree, and remembers old-to-new edges in a field set. The large
-- object space keeps its dead objects in a quarantine, by size class, before it releases them.
--
-- The files. A module stands for a header, its definitions are named after the C functions less their
-- prefix, and its children hold the theorems.
--   Base         numbers, tests, arrays, counts, 64-bit words and signed integers, for all others
--   Extents      `src/extents.h`: the ranges of addresses of a space, searched by halves
--   SplayTree    `src/splay-tree.h`: the tree that finds large objects, generic in its keys as the
--                macros are
--   Histogram    `api/gc-histogram.h`, `src/freelist.h`: the buckets of sizes
--   LargeObject  `src/large-object-space.h`: Span has the keys of that tree, Space the state and the
--                operations on one object, Alloc allocation and conservative references, Cycle the
--                start and the end of a collection, and the quarantine
--   FieldSet     `src/field-set.h`: the remembered set of edges, in buffers
--   CopySpace    `src/copy-space.h`, `src/gc-align.h`: Layout has the addresses of blocks and regions,
--                State the lists of blocks and paging, Alloc the allocators and the collection cycle,
--                Init and Grow the slabs, Logging the bits of fields
--   Holeset      `src/nofl-holeset.h`: free holes by size class, and their exchange between threads
--   Finalizer    `src/gc-finalizer.c`: the tables of finalizers, and those that fired
--   BackgroundThread  `src/background-thread.h`: the tasks run by priority, and the thread
--   Ephemeron    `src/gc-ephemeron.c`: chains with dead links, and the pending and resolved ones of a
--                collection
--   Tracer       `src/serial-tracer.h`: the trace from the roots, with the visits of `src/pcc.c`
--   Options      `src/gc-options.c`: the parser of lists of options
--   SimpleWorklist  `src/simple-worklist.h`: the queue of grey objects, in a ring that grows
--   RootWorklist    `src/root-worklist.h`: the roots of a collection, taken by many consumers
--
-- Conventions. A C pointer to a node that one list or tree owns is the node itself, so a linked list
-- is a list. Where a map of addresses leads to such nodes, as in the large object space, a pointer
-- is the address that its node starts at; a set or a map of addresses holds its keys. Numbers are
-- natural numbers; where a 64-bit word may wrap, the wrap is written out (Word), except in the copy
-- space's count of the bytes to page out, a signed word, which is an integer here: the two agree as
-- long as requests stay below 2^63 bytes. A failed GC_ASSERT, GC_CRASH, a read out of range and fuel
-- that runs out are all `none`, so a theorem that a result is `some` states that none of them
-- happens. Assertions on what is not modelled, such as the bytes of unused memory, are left out; the
-- file that does so says it. A critical section, and an atomic push or pop, is one step; a
-- function's steps are composed as its body composes them. Callbacks and the embedder's constants
-- are arguments.
--
-- Fuel. Each loop that is not a recursion on its list has fuel for one round more than there are
-- items: ranges to halve, nodes of a tree, edges of a buffer, blocks of a list, references to make
-- room for, objects to mark; a chain of ephemerons has fuel for its length, a string of options for its
-- characters. The theorems on these loops state that it is enough.
--
-- Not modelled: the moving of objects, the address map's and set's tables, races within one function,
-- floating point, most of the nofl space, the parallel tracer, the starting and stopping of threads,
-- system calls, failures of malloc, which end the process, and the parts of the collectors that only
-- call others.
pub mod Base
pub mod Ephemeron
pub mod Extents
pub mod SplayTree
pub mod BackgroundThread
pub mod Histogram
pub mod LargeObject
pub mod FieldSet
pub mod CopySpace
pub mod Holeset
pub mod Options
pub mod Tracer
pub mod Finalizer
pub mod SimpleWorklist
pub mod RootWorklist
