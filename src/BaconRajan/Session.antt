-- ===== src/BaconRajan/Session.antt =====
-- A program that uses the runtime with the algorithm of src/algo/bacon-rajan: what holds of the
-- runtime between its calls.
pub mod Growing
pub mod Calls
pub mod Allocating
pub mod Sound
use xgc.Barrier.{set_check_invariants}
use xgc.Heap
use xgc.MarkSweep.Visits.{targeted}
use xgc.Object.{Header}
use xgc.Runtime.{Runtime, gc_state_running}
use xgc.Runtime.Program.{is_object}
use xgc.Prelude.{
  ℕ, ◌+◌, ◌^◌, ◌≤◌, ◌<◌, ◌≡◌, ◌⊎◌, Bool, true, false, not, Option, none, some, List, Ptr, null,
  size_mod, ◌==◌,
}

-- What the allocator answers during one call: for the work stack, and for an object.
pub record Answers : Type 0 where
  pub worklist_granted : Bool
  pub object : Ptr

-- The allocator answers NULL or an address where no object lives; sizes fit 32 bits and the total
-- fits `size_t`.
pub record Admits {S : Type 0} (a : Answers) (rt : Runtime S) (size : ℕ) : Type 0 where
  pub unused : (a.object ≡ null) ⊎ (rt.memory.header a.object ≡ none)
  pub small : size < 2 ^ 32
  pub fits : rt.stats.total_allocated + size < size_mod

pub record IsSound {S : Type 0} (rt : Runtime S) : Type 0 where
  pub targets : (q : Ptr) → targeted rt.handles q ≡ true → is_object (rt.memory.header q) ≡ true
  pub named : targeted rt.handles null ≡ false
  pub worklist : (rt.worklist_capacity == 0) ≡ not rt.worklist_allocated
  pub peak : rt.stats.total_allocated ≤ rt.stats.peak_allocated
  pub barriers : set_check_invariants rt.barriers ≡ true
  pub heap : Heap.check_invariants rt.heap ≡ true
  pub gc_state : rt.gc_state ≡ gc_state_running

-- A header that is there stays there; only its flags may change.
abbrev pub Kept : Option Header → Option Header → Type 0
Kept none o = Unit {0}
Kept (some h) none = ⊥
Kept (some h) (some h') = (h'.desc ≡ h.desc) × (h'.size ≡ h.size) × (h'.kind ≡ h.kind)

-- No object is reclaimed.
pub record Grows {S : Type 0} (rt rt' : Runtime S) : Type 0 where
  pub headers : (q : Ptr) → Kept (rt.memory.header q) (rt'.memory.header q)
  pub finalized : rt'.memory.finalized ≡ rt.memory.finalized
  pub total : rt.stats.total_allocated ≤ rt'.stats.total_allocated
