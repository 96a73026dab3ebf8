-- ===== src/Lib.antt =====
-- The xgc garbage collection library (include/xgc, src/core, src/algo): a runtime with handles,
-- write-barrier bookkeeping and pluggable collection algorithms.
--
-- The parts and the files that model them:
--   Prelude      shared names, Boolean tests, lists under native indices, `size_t` arithmetic
--   Bitmap       src/core/bitmap.c: the dirty bits of one object, byte by byte
--   CardTable    src/core/card_table.c: one entry for each registered old object, with its bitmap
--   Barrier      src/core/barrier.c: the card table and its two counters inside the runtime
--   Worklist     src/core/worklist.c: the explicit mark stack
--   Object       include/xgc/gc_types.h, src/core/descriptor.c: headers and ranged tracing
--   Heap         src/core/heap.c: the accounts of the two generations
--   Runtime      src/core/runtime.c, src/core/reclaim.c: configuration, contracts, creation, handles,
--                allocation, references, collections, reclamation
--   MarkSweep    src/algo/marksweep/ms.c: the stop-the-world mark-sweep algorithm
--   GenCopy      src/algo/gen_copy_ms/young_copy.c: the generational algorithm with a copied nursery
--                (Copying: what a minor collection does to the objects; Old: the old generation; Session:
--                the calls of a program)
--   BaconRajan   src/algo/bacon-rajan: the reference-counting algorithm, which reclaims nothing yet
-- The checkers of src/core/invariants.c stand with the component that they check.
--
-- How they interact: the runtime calls the algorithm through its table (`Vtable`); an algorithm marks
-- through the work stack, frees through `reclaim_object`, and remembers old-to-young references in
-- the barrier set, which keeps a bitmap for each object of its card table.
--
-- State is passed explicitly: an operation takes the structure that it writes and answers the new
-- one. A pointer is a number and NULL is 0; a pointer that may be NULL where the code tests it is an
-- `Option`. Names are those of the source without the `gc_` prefix and the component's prefix, which
-- the module carries. `size_t` arithmetic wraps at 2 ^ 64 (`add_size`, `sub_size`, `mul_size`).
--
-- What the C library and the VM answer is an argument: whether an allocation is granted, the address
-- it answers, the slots that a tracing callback or the root scan hands to the visitor.
--
-- Loops are structural recursion on the list or the count that they run over. The loop that drains
-- the work stack takes fuel, one more than the number of the collector's objects: each round pops an
-- object that was pushed when it was marked, and no object is marked twice. The loop of a minor
-- collection takes one more than the nursery's capacity, since a nursery address is promoted once;
-- the walk over the nursery takes one more than its used bytes, since an object has a size. Where the
-- fuel runs out the answer is `none`, up to the call of the library, and what ends is proved to
-- answer: the walk over the nursery does if it holds whole objects, which the calls of a program
-- keep.
--
-- Not modelled: the stubs for rings, purple buffers, epochs and atomics (src/core/ring.c, purple.c,
-- epoch.c, atomic.c), and the tests, benchmarks and examples, which are clients of the library. The
-- runtime is single-threaded here, as the modelled code is.
pub mod Prelude
pub mod Bitmap
pub mod Barrier
pub mod CardTable
pub mod Worklist
pub mod Object
pub mod Heap
pub mod Runtime
pub mod MarkSweep
pub mod GenCopy
pub mod BaconRajan
