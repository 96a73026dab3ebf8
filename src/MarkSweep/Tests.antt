-- ===== src/MarkSweep/Tests.antt =====
-- A full collection of src/algo/marksweep/ms.c: a root slot holds the first of three objects, which
-- refers to the second; the third is garbage.
use xgc.Barrier.{set_init}
use xgc.Heap
use xgc.MarkSweep.{
  Node, MarkCtx, MarkSweepState, find_node, mark_phase, sweep, collect_full_impl, mark_handle_roots,
  mark_slots, mark_slot, mark_object, push_object, set_marked, drain_worklist,
}
use xgc.MarkSweep.Algorithm.{Answers, vtable}
use xgc.MarkSweep.Accesses.{load_ref-store_ref}
use xgc.MarkSweep.Destroying.{destroy_lem}
use xgc.Runtime.Creation.{destroy}
use xgc.Runtime.Freeing.{finalizes_at, times}
use xgc.Runtime.References.{store_ref, load_ref}
use xgc.MarkSweep.Nodes.{known, marked, Distinct}
use xgc.MarkSweep.MarkPhase.{HasWorklist, Live, mark_phase_lem}
use xgc.MarkSweep.Sweeping.{Swept, sweep-Swept}
use xgc.MarkSweep.Collecting.{IsReady, Collected, collect_full_lem}
use xgc.Object.{Header, Descriptor, object_slots}
use xgc.Prelude.{
  ◌&&◌, null, ℕ, ◌+◌, ◌≡◌, ◌↔◌, refl, Bool, true, false, Option, none, some, List, [], ◌∷◌, arith,
  ◌==◌, if◌then◌else◌, Ptr, Ends,
}
use xgc.Runtime.{Runtime}
use xgc.Runtime.Reclaim.{reclaim_object}
use xgc.Worklist
use xgc.Worklist.{Worklist}
use xgc.Worklist.Stack.{IsValid}

-- Its one slot follows the header.
abbrev linked : Descriptor
linked = record {
  fixed_size = 24;
  flags = 2;
  kind = 1;
  trace_slots = some (λ obj. (obj + 16) ∷ []);
  trace_slots_range = none;
  has_finalize = true;
}

abbrev linked_header : Header
linked_header = record { desc = some linked; size = 24; flags = 0; kind = 1 }

abbrev three : List Node
three =
    record { obj = 300; marked = false }
    ∷ record { obj = 200; marked = false }
    ∷ record { obj = 100; marked = false }
    ∷ []

abbrev three_state : MarkSweepState
three_state = record { objects = three }

abbrev always : ℕ → Bool
always n = true

abbrev with_garbage : Runtime MarkSweepState
with_garbage = record {
  cfg = record {
    gc_threshold_soft = 1;
    gc_threshold_hard = 1;
    gc_young_space_size = 1;
    gc_region_size = 256;
    gc_large_object_threshold = 32768;
    gc_flags = 0;
    gc_debug_enable = 0;
  };
  heap = Heap.init 32768;
  barriers = set_init 256;
  stats = record {
    total_allocated = 72;
    peak_allocated = 72;
    minor_collections = 0;
    major_collections = 0;
    full_collections = 0;
  };
  algo_state = some three_state;
  handles = [];
  worklist_data = 0 ∷ 0 ∷ [];
  worklist_allocated = true;
  worklist_capacity = 2;
  gc_state = 0;
  scan_roots = some (8 ∷ []);
  memory = record {
    header = λ p.
        if p == 100
        then some linked_header
        else if p == 200
        then some linked_header
        else if p == 300
        then some linked_header
        else none;
    slot = λ s. if s == 8 then 100 else if s == 116 then 200 else 0;
    finalized = [];
  };
}

three-Distinct : Distinct three
unfolding known find_node
three-Distinct = (refl, omega arith, (refl, omega arith, (refl, omega arith, tt)))

three-white : (q : Ptr) → marked three q ≡ false
unfolding marked find_node
three-white q = ground arith

with_garbage-HasWorklist : HasWorklist with_garbage
with_garbage-HasWorklist = record { size = refl; pointer = refl }

with_garbage-IsReady : IsReady with_garbage three_state
with_garbage-IsReady = record {
  attached = refl;
  distinct = three-Distinct;
  white = three-white;
  worklist = with_garbage-HasWorklist;
}

-- The garbage is finalized, and only it.
abbrev finalized_by : Option (Runtime MarkSweepState) → List Ptr
finalized_by none = []
finalized_by (some rt) = rt.memory.finalized

run_collect : finalized_by (collect_full_impl always with_garbage) ≡ 300 ∷ []
unfolding collect_full_impl mark_phase mark_handle_roots mark_slots mark_slot mark_object
    push_object set_marked drain_worklist find_node sweep Worklist.push Worklist.pop object_slots
    reclaim_object
run_collect = refl

collect_full_lem_example :
    Ends
      (λ rt'. (state' : MarkSweepState) × Collected with_garbage three_state rt' state')
      (collect_full_impl always with_garbage)
collect_full_lem_example =
    collect_full_lem always (λ n. refl) with_garbage three_state with_garbage-IsReady

mark_phase_lem_example :
    (c : MarkCtx) × (mark_phase always with_garbage three ≡ some c)
    × ((q : Ptr) → (marked c.objects q ≡ true) ↔ ∥ Live with_garbage three q ∥₁)
    × ((q : Ptr) → known c.objects q ≡ known three q)
    × Distinct c.objects
    × IsValid c.wl
mark_phase_lem_example =
    mark_phase_lem always (λ n. refl) with_garbage three with_garbage-HasWorklist three-Distinct
      three-white

-- Only the first node is marked.
abbrev half_marked : List Node
half_marked = record { obj = 100; marked = true } ∷ record { obj = 300; marked = false } ∷ []

half_marked-Distinct : Distinct half_marked
unfolding known find_node
half_marked-Distinct = (refl, omega arith, (refl, omega arith, tt))

sweep-Swept_example :
    Swept with_garbage half_marked
      (sweep with_garbage half_marked).0
      (sweep with_garbage half_marked).1
sweep-Swept_example = sweep-Swept with_garbage half_marked half_marked-Distinct

abbrev answers : Answers
answers = record { state_granted = true; object = 4096; node_granted = true; grants = always }

destroy_lem_example :
    ((destroy (vtable answers) with_garbage).header 200
      ≡ (if known three 200 then none else with_garbage.memory.header 200))
    × (times 200 (destroy (vtable answers) with_garbage).finalized
        ≡ (if known three 200 && finalizes_at (with_garbage.memory.header 200) then 1 else 0)
          + times 200 with_garbage.memory.finalized)
    × ((destroy (vtable answers) with_garbage).slot 8 ≡ with_garbage.memory.slot 8)
destroy_lem_example = destroy_lem answers with_garbage three_state with_garbage-IsReady 200 8

load_ref-store_ref_example :
    load_ref (vtable answers) (store_ref (vtable answers) with_garbage 100 116 300) 8 ≡ (
      if 8 == null then null else if 116 == 8 then 300 else with_garbage.memory.slot 8,
      store_ref (vtable answers) with_garbage 100 116 300,
    )
load_ref-store_ref_example = load_ref-store_ref answers with_garbage 100 116 300 8
