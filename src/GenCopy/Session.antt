-- ===== src/GenCopy/Session.antt =====
-- A program that uses the generational algorithm of src/algo/gen_copy_ms/young_copy.c: what holds of
-- the runtime between its calls, and the calls.
pub mod Keeping
pub mod Bumping
pub mod Allocating
pub mod Starting
pub mod Calls
pub mod Collecting
pub mod Typed
pub mod Sound
mod Programs
mod Tests
use xgc.Barrier.{set_init}
use xgc.GenCopy.{GenCopyState}
use xgc.GenCopy.Algorithm.{aligned}
use xgc.GenCopy.Walking.{WholeObjects}
use xgc.GenCopy.Copying.{Scene, IsScene, Funded, OldStart}
use xgc.GenCopy.Copying.Scanned.{RootsGood}
use xgc.GenCopy.Old.{IsOld}
use xgc.GenCopy.Old.Adding.{Fits}
use xgc.GenCopy.Table.{CallAnswers, vtable}
use xgc.Heap.{GcHeap}
use xgc.MarkSweep.Nodes.{known}
use xgc.Object.{Descriptor, alloc_pinned}
use xgc.Runtime.{Runtime, Handle}
use xgc.Runtime.Allocation.{alloc_typed}
use xgc.Runtime.Collection.{collect_minor, collect_major, collect_full}
use xgc.Runtime.Handles.{handle_acquire, handle_release}
use xgc.Runtime.Flags.{has_flag}
use xgc.Runtime.References.{store_ref}
use xgc.Prelude.{
  ℕ, ◌+◌, ◌/◌, ◌%◌, ◌^◌, ◌≤◌, ◌<◌, ◌≡◌, ◌≢◌, ◌⊎◌, Bool, true, false, Option, some, Ptr, null, leb,
  ltb, ◌&&◌, size_mod,
}

abbrev pub in_space : GenCopyState → Ptr → Bool
in_space state q = leb state.nursery_space q && ltb q (state.nursery_space + state.nursery_capacity)

-- The account says where the nursery is and how much of it is in use; that part holds whole objects;
-- the old generation is in order and outside the nursery.
pub record IsSound (rt : Runtime GenCopyState) (state : GenCopyState) : Type 0 where
  pub old : IsOld rt state
  pub space : state.nursery_space ≢ null
  pub base : rt.heap.young_base ≡ state.nursery_space
  pub capacity : rt.heap.young_capacity ≡ state.nursery_capacity
  pub used : rt.heap.young_used ≡ state.nursery_used
  pub room : state.nursery_used ≤ state.nursery_capacity
  pub fits : state.nursery_capacity < size_mod
  pub outside : (q : Ptr) → known state.old_objects q ≡ true → in_space state q ≡ false
  pub laid :
      WholeObjects rt.memory.header (state.nursery_space + state.nursery_used) state.nursery_space

-- A collection in which all is granted and the nursery, which is in use, holds objects whose references
-- refer to objects.
pub record Collects (a : CallAnswers) (sc : Scene) (rt : Runtime GenCopyState) : Type 0 where
  pub scene : IsScene sc
  pub granted : (n : ℕ) → (sc.answers n).push_granted ≡ true
  pub same : rt.memory ≡ sc.memory
  pub good : RootsGood sc scene granted rt same
  pub funded : Funded sc
  pub start : OldStart sc
  pub attached : rt.algo_state ≡ some sc.state
  pub used : sc.state.nursery_used ≢ 0
  pub promotions : a.promotions ≡ sc.answers
  pub snapshot : a.snapshot_granted ≡ true

-- The allocator answers NULL or the address of no object, outside the nursery.
abbrev pub Unused : GenCopyState → Ptr → Type 0
Unused state p = (p ≡ null) ⊎ ((known state.old_objects p ≡ false) × (in_space state p ≡ false))

-- What an allocation may be: the size, rounded up, fits 32 bits, the counters have room for it, and
-- where it is served from the nursery there is room for it or a collection to make it.
pub record Admits (a : CallAnswers) (rt : Runtime GenCopyState) (state : GenCopyState) (raw : Ptr)
    (size alloc_flags : ℕ) : Type 0 where
  pub unused : Unused state a.raw
  pub fallback : Unused state raw
  pub size_fits : size + 7 < size_mod
  pub small : aligned size < 2 ^ 32
  pub fits : Fits rt.barriers rt.heap (aligned size)
  pub now :
      (has_flag alloc_flags alloc_pinned ≡ true)
      ⊎ ((state.nursery_capacity / 2 < aligned size)
          ⊎ ((state.nursery_used + aligned size ≤ state.nursery_capacity)
              ⊎ ((sc : Scene) × Collects a sc rt)))

-- One call of src/core/runtime.c. `raw` is what `calloc` answers there if the algorithm has no object.
pub data Call (rt : Runtime GenCopyState) : Runtime GenCopyState → Type 0 where
  allocate :
      (a : CallAnswers) (raw : Ptr) (state : GenCopyState) (desc : Option Descriptor)
      (size alloc_flags : ℕ) (obj : Ptr) (rt' : Runtime GenCopyState)
      → rt.algo_state ≡ some state
      → Admits a rt state raw size alloc_flags
      → alloc_typed (vtable a) raw rt desc size alloc_flags ≡ some (obj, rt')
      → Call rt rt'
  store :
      (a : CallAnswers) (owner slot new_value : Ptr)
      → Call rt (store_ref (vtable a) rt owner slot new_value)
  acquire :
      (a : CallAnswers) (node obj : Ptr) (flags : ℕ)
      → Call rt (handle_acquire (vtable a) node rt obj flags).1
  release :
      (a : CallAnswers) (handle : Option Handle) → Call rt (handle_release (vtable a) rt handle)
  minor :
      (a : CallAnswers) (sc : Scene) (rt' : Runtime GenCopyState)
      → Collects a sc rt
      → collect_minor (vtable a) rt ≡ some rt'
      → Call rt rt'
  major :
      (a : CallAnswers) (sc : Scene) (rt' : Runtime GenCopyState)
      → Collects a sc rt
      → ((n : ℕ) → a.grants n ≡ true)
      → collect_major (vtable a) rt ≡ some rt'
      → Call rt rt'
  full :
      (a : CallAnswers) (sc : Scene) (rt' : Runtime GenCopyState)
      → Collects a sc rt
      → ((n : ℕ) → a.grants n ≡ true)
      → collect_full (vtable a) rt ≡ some rt'
      → Call rt rt'

-- The runtimes that calls lead to from `rt0` on.
pub data Reach (rt0 : Runtime GenCopyState) : Runtime GenCopyState → Type 0 where
  start : Reach rt0 rt0
  next : {rt rt' : Runtime GenCopyState} → Reach rt0 rt → Call rt rt' → Reach rt0 rt'
