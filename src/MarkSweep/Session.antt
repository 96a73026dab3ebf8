-- ===== src/MarkSweep/Session.antt =====
-- A program that uses the runtime of src/core/runtime.c with the algorithm of
-- src/algo/marksweep/ms.c: what holds of the runtime between its calls.
pub mod Allocating
pub mod Objects
pub mod Calls
pub mod Collections
pub mod HandleCalls
pub mod Sound
pub mod Surviving
mod Tests
use xgc.Barrier.{set_check_invariants}
use xgc.Heap
use xgc.MarkSweep.{Node, MarkSweepState, find_node}
use xgc.MarkSweep.Algorithm.{Answers, vtable}
use xgc.MarkSweep.Collecting.{IsReady}
use xgc.MarkSweep.Held.{held_bytes}
use xgc.MarkSweep.Nodes.{known}
use xgc.MarkSweep.Visits.{targeted}
use xgc.Object.{Memory, Header, Descriptor}
use xgc.Runtime.{Runtime, Vtable, GcConfig, Handle, gc_state_running}
use xgc.Runtime.Allocation.{alloc_typed}
use xgc.Runtime.Collection.{collect_minor, collect_major, collect_full}
use xgc.Runtime.Creation.{create, config_of}
use xgc.Runtime.Handles.{handle_acquire, handle_release}
use xgc.Runtime.References.{store_ref}
use xgc.Runtime.Program.{is_object}
use xgc.Prelude.{
  ℕ, ◌+◌, ◌*◌, ◌^◌, ◌≤◌, ◌<◌, ◌≡◌, ◌≢◌, ◌⊎◌, Bool, true, false, not, ◌&&◌, Option, none, some, List,
  Ptr, null, size_mod, is_none, ◌==◌,
}

pub record IsSound (rt : Runtime MarkSweepState) (state : MarkSweepState) : Type 0 where
  pub ready : IsReady rt state
  pub headers : (q : Ptr) → known state.objects q ≡ true → is_object (rt.memory.header q) ≡ true
  pub targets : (q : Ptr) → targeted rt.handles q ≡ true → is_object (rt.memory.header q) ≡ true
  pub named : targeted rt.handles null ≡ false
  pub total : rt.stats.total_allocated ≡ held_bytes rt.memory.header state.objects
  pub peak : rt.stats.total_allocated ≤ rt.stats.peak_allocated
  pub barriers : set_check_invariants rt.barriers ≡ true
  pub heap : Heap.check_invariants rt.heap ≡ true
  pub gc_state : rt.gc_state ≡ gc_state_running

-- One call. An allocator answers NULL or an address where no object lives, sizes fit 32 bits, and a
-- handle is acquired on an object. A collection has memory for its work stack.
pub data Call (rt : Runtime MarkSweepState) : Runtime MarkSweepState → Type 0 where
  allocate :
      (a : Answers) (raw : Ptr) (desc : Option Descriptor) (size alloc_flags : ℕ) (obj : Ptr)
      (rt' : Runtime MarkSweepState)
      → (a.object ≡ null) ⊎ (rt.memory.header a.object ≡ none)
      → (raw ≡ null) ⊎ (rt.memory.header raw ≡ none)
      → size < 2 ^ 32
      → rt.stats.total_allocated + size < size_mod
      → alloc_typed (vtable a) raw rt desc size alloc_flags ≡ some (obj, rt')
      → Call rt rt'
  store :
      (a : Answers) (owner slot new_value : Ptr)
      → Call rt (store_ref (vtable a) rt owner slot new_value)
  acquire :
      (a : Answers) (node obj : Ptr) (flags : ℕ)
      → (obj ≡ null) ⊎ (is_object (rt.memory.header obj) ≡ true)
      → Call rt (handle_acquire (vtable a) node rt obj flags).1
  release : (a : Answers) (handle : Option Handle) → Call rt (handle_release (vtable a) rt handle)
  minor :
      (a : Answers) (rt' : Runtime MarkSweepState)
      → ((n : ℕ) → a.grants n ≡ true)
      → collect_minor (vtable a) rt ≡ some rt'
      → Call rt rt'
  major :
      (a : Answers) (rt' : Runtime MarkSweepState)
      → ((n : ℕ) → a.grants n ≡ true)
      → collect_major (vtable a) rt ≡ some rt'
      → Call rt rt'
  full :
      (a : Answers) (rt' : Runtime MarkSweepState)
      → ((n : ℕ) → a.grants n ≡ true)
      → collect_full (vtable a) rt ≡ some rt'
      → Call rt rt'

-- The runtimes of one program, from `gc_runtime_create` on.
pub data Session : Runtime MarkSweepState → Type 0 where
  created :
      (a : Answers) (cfg : Option GcConfig) (roots : Option (List Ptr)) (memory : Memory)
      (algo : Vtable MarkSweepState) (rt : Runtime MarkSweepState)
      → a.state_granted ≡ true
      → (config_of cfg).gc_region_size < size_mod
      → create true true cfg none (vtable a) roots memory ≡ some (algo, rt)
      → Session rt
  called : {rt rt' : Runtime MarkSweepState} → Session rt → Call rt rt' → Session rt'
