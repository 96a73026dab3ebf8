-- ===== src/Runtime.antt =====
-- The runtime of src/gc_internal.h and src/core/runtime.c. `Runtime S` holds the fields of
-- `struct gc_runtime` that the library reads, with an algorithm's own state of type `S` behind
-- `algo_state` (`none` is NULL), and the memory that it works on. The VM's hook `scan_roots` is given
-- by the addresses of the root slots that it hands to the visitor; `none` is NULL. The algorithm's
-- table of functions is an argument of the functions that call through it.
pub mod Config
pub mod Contract
pub mod Flags
pub mod PinFlag
pub mod Creation
pub mod Created
pub mod Handles
pub mod References
pub mod Allocation
pub mod Collection
pub mod Reclaim
pub mod Freeing
pub mod Program
mod Tests
use xgc.Barrier.{BarrierSet}
use xgc.Heap.{GcHeap}
use xgc.Object.{Memory, Header, Descriptor}
use xgc.Prelude.{
  ℕ, ◌+◌, ◌-◌, Bool, true, false, not, ◌&&◌, ◌||◌, Option, none, some, List, [], ◌∷◌, ltb, leb,
  ◌==◌, if◌then◌else◌, Ptr, null, add_size, is_none,
}

pub record Stats : Type 0 where
  pub total_allocated : ℕ
  pub peak_allocated : ℕ
  pub minor_collections : ℕ
  pub major_collections : ℕ
  pub full_collections : ℕ

pub record GcConfig : Type 0 where
  pub gc_threshold_soft : ℕ
  pub gc_threshold_hard : ℕ
  pub gc_young_space_size : ℕ
  pub gc_region_size : ℕ
  pub gc_large_object_threshold : ℕ
  pub gc_flags : ℕ
  pub gc_debug_enable : ℕ

-- A handle in the runtime's list; `self` is the address of its node, and its runtime is the one that
-- holds the list.
pub record Handle : Type 0 where
  pub self : Ptr
  pub target : Ptr
  pub flags : ℕ

pub record Runtime (S : Type 0) : Type 0 where
  pub cfg : GcConfig
  pub heap : GcHeap
  pub barriers : BarrierSet
  pub stats : Stats
  pub algo_state : Option S
  pub handles : List Handle
  pub worklist_data : List Ptr
  pub worklist_allocated : Bool
  pub worklist_capacity : ℕ
  pub gc_state : ℕ
  pub scan_roots : Option (List Ptr)
  pub memory : Memory

abbrev pub gc_state_running : ℕ
gc_state_running = 0

abbrev pub gc_state_stw_requested : ℕ
gc_state_stw_requested = 1

abbrev pub gc_state_stw_in_progress : ℕ
gc_state_stw_in_progress = 2

pub record AlgorithmCaps : Type 0 where
  pub supports_moving : Bool
  pub supports_compaction : Bool
  pub supports_generations : Bool
  pub requires_write_barrier : Bool
  pub requires_read_barrier : Bool
  pub supports_concurrent_mark : Bool
  pub supports_concurrent_relocate : Bool
  pub provides_deterministic_release : Bool

-- `gc_algorithm_vtable`: a function that is `none` is a NULL pointer. `alloc` answers the object and
-- the runtime after it; it and a collection answer `none` where their model runs out of fuel.
pub record Vtable (S : Type 0) : Type 0 where
  pub has_name : Bool
  pub caps : AlgorithmCaps
  pub global_init : Option (Runtime S → GcConfig → Runtime S)
  pub global_destroy : Option (Runtime S → Runtime S)
  pub thread_init : Option (Runtime S → Runtime S)
  pub thread_destroy : Option (Runtime S → Runtime S)
  pub alloc : Option (Runtime S → Option Descriptor → ℕ → ℕ → Option (Ptr × Runtime S))
  pub post_alloc : Option (Runtime S → Ptr → Runtime S)
  pub write_barrier : Option (Runtime S → Ptr → Ptr → Ptr → Ptr → Runtime S)
  pub read_barrier : Option (Runtime S → Ptr → Ptr × Runtime S)
  pub collect_minor : Option (Runtime S → Option (Runtime S))
  pub collect_major : Option (Runtime S → Option (Runtime S))
  pub collect_full : Option (Runtime S → Option (Runtime S))
  pub pin : Option (Runtime S → Ptr → Runtime S)
  pub unpin : Option (Runtime S → Ptr → Runtime S)

-- A call through a pointer that is tested for NULL first.
abbrev pub call_if {ℓ} : {A : Type ℓ} → Option (A → A) → A → A
call_if none x = x
call_if (some f) x = f x
