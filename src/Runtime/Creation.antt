-- ===== src/Runtime/Creation.antt =====
-- `gc_runtime_create`, `gc_runtime_destroy` and the thread contexts (src/core/runtime.c). What
-- `calloc` answers is an argument of each function that calls it.
use xgc.Barrier.{set_init}
use xgc.Heap
use xgc.Object.{Memory}
use xgc.Runtime.{Runtime, Stats, GcConfig, Vtable, call_if, gc_state_running}
use xgc.Runtime.Config.{zeroed, apply_default_config}
use xgc.Runtime.Contract.{validate_contracts}
use xgc.Prelude.{
  ℕ, Bool, true, not, Option, none, some, List, [], if◌then◌else◌, Ptr, null, replicate,
}

abbrev pub initial_worklist_capacity : ℕ
initial_worklist_capacity = 256

abbrev pub zeroed_stats : Stats
zeroed_stats = record {
  total_allocated = 0;
  peak_allocated = 0;
  minor_collections = 0;
  major_collections = 0;
  full_collections = 0;
}

abbrev pub config_of : Option GcConfig → GcConfig
config_of none = apply_default_config zeroed
config_of (some cfg) = apply_default_config cfg

-- The runtime before the algorithm's `global_init`.
unfoldable pub initial_runtime :
    {S : Type 0} → Option GcConfig → Option (List Ptr) → Memory → Runtime S
initial_runtime cfg scan_roots memory = record {
  cfg = config_of cfg;
  heap = Heap.init (config_of cfg).gc_large_object_threshold;
  barriers = set_init (config_of cfg).gc_region_size;
  stats = zeroed_stats;
  algo_state = none;
  handles = [];
  worklist_data = replicate initial_worklist_capacity null;
  worklist_allocated = true;
  worklist_capacity = initial_worklist_capacity;
  gc_state = gc_state_running;
  scan_roots = scan_roots;
  memory = memory;
}

abbrev pub chosen_algorithm : {S : Type 0} → Option (Vtable S) → Vtable S → Vtable S
chosen_algorithm none default = default
chosen_algorithm (some algo) default = algo

-- `default` is `xgc_default_algorithm()`. The answer is the runtime with the algorithm bound to it.
unfoldable pub create :
    {S : Type 0}
    → (runtime_granted worklist_granted : Bool) → Option GcConfig
    → Option (Vtable S)
    → Vtable S
    → Option (List Ptr)
    → Memory
    → Option (Vtable S × Runtime S)
create runtime_granted worklist_granted cfg algo default scan_roots memory =
    let bound = chosen_algorithm algo default in
    let rt = initial_runtime cfg scan_roots memory in
    if not runtime_granted
    then none
    else if not (validate_contracts (some bound) scan_roots)
    then none
    else if not worklist_granted
    then none
    else some (bound, elim bound.global_init [ none ↦ rt | some init ↦ init rt rt.cfg ])

-- What is left of the runtime is the memory it shares with the VM. The handles are freed before the
-- algorithm's own state is.
unfoldable pub destroy : {S : Type 0} → Vtable S → Runtime S → Memory
destroy algo rt = (call_if algo.global_destroy (record rt { handles = [] })).memory

pub record ThreadContext : Type 0 where
  pub vm_thread_ctx : Ptr

unfoldable pub thread_attach :
    {S : Type 0} → Bool → Vtable S → Runtime S → Ptr → Option ThreadContext × Runtime S
thread_attach granted algo rt vm_thread_ctx =
    if not granted
    then (none, rt)
    else (some (record { vm_thread_ctx = vm_thread_ctx }), call_if algo.thread_init rt)

unfoldable pub thread_detach :
    {S : Type 0} → Vtable S → Runtime S → Option ThreadContext → Runtime S
thread_detach algo rt none = rt
thread_detach algo rt (some thread) = call_if algo.thread_destroy rt
