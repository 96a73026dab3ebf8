-- ===== src/MarkSweep.antt =====
-- The stop-the-world mark-sweep algorithm of src/algo/marksweep/ms.c. The linked list of nodes is a
-- list, its first node first. A visit of slots is a loop over their addresses (see `Object`). The
-- loop that drains the work stack takes fuel, and `none` means that it ran out. `grants` says of
-- each request for a larger work stack, in order, whether it is granted.
pub mod Nodes
pub mod Algorithm
pub mod Visits
pub mod Draining
pub mod MarkPhase
pub mod Sweeping
pub mod Held
pub mod Clearing
pub mod Collecting
pub mod Session
pub mod Destroying
pub mod Accesses
mod Tests
use xgc.Object.{Memory, Header, Descriptor, object_slots, set_header}
use xgc.Prelude.{
  ℕ, zero, suc, ◌+◌, Bool, true, false, not, ◌&&◌, ◌||◌, Option, none, some, List, [], ◌∷◌, ltb,
  leb, ◌==◌, if◌then◌else◌, Ptr, null, length,
}
use xgc.Runtime.{Runtime, Handle}
use xgc.Runtime.Reclaim.{reclaim_object}
use xgc.Worklist
use xgc.Worklist.{Worklist}

pub record Node : Type 0 where
  pub obj : Ptr
  pub marked : Bool

pub record MarkSweepState : Type 0 where
  pub objects : List Node

-- The mark context: the nodes of its state, its work stack, and how many requests for a larger stack
-- have been made.
pub record MarkCtx : Type 0 where
  pub objects : List Node
  pub wl : Worklist
  pub requests : ℕ

unfoldable pub find_node : List Node → Ptr → Option Node
find_node [] obj = none
find_node (n ∷ ns) obj = if n.obj == obj then some n else find_node ns obj

-- `node->marked = 1u` for the node that `find_node` answers.
unfoldable pub set_marked : List Node → Ptr → List Node
set_marked [] obj = []
set_marked (n ∷ ns) obj =
    if n.obj == obj then record n { marked = true } ∷ ns else n ∷ set_marked ns obj

unfoldable pub push_object : (ℕ → Bool) → MarkCtx → Ptr → MarkCtx
push_object grants ctx obj = record ctx {
  wl = Worklist.push (grants ctx.requests) ctx.wl obj;
  requests = if leb ctx.wl.capacity ctx.wl.top then ctx.requests + 1 else ctx.requests;
}

unfoldable pub mark_object : (ℕ → Bool) → MarkCtx → Ptr → MarkCtx
mark_object grants ctx obj = if obj == null then ctx else elim (find_node ctx.objects obj) [
  | none ↦ ctx
  | some node ↦
      if node.marked
      then ctx
      else push_object grants (record ctx { objects = set_marked ctx.objects obj }) obj
]

-- `gc_marksweep_mark_root_slot` and `gc_marksweep_mark_child_slot` have one body.
unfoldable pub mark_slot : (ℕ → Bool) → Memory → MarkCtx → Ptr → MarkCtx
mark_slot grants m ctx slot = if slot == null then ctx else mark_object grants ctx (m.slot slot)

unfoldable pub mark_slots : (ℕ → Bool) → Memory → MarkCtx → List Ptr → MarkCtx
mark_slots grants m ctx [] = ctx
mark_slots grants m ctx (slot ∷ slots) = mark_slots grants m (mark_slot grants m ctx slot) slots

unfoldable pub mark_handle_roots : (ℕ → Bool) → MarkCtx → List Handle → MarkCtx
mark_handle_roots grants ctx [] = ctx
mark_handle_roots grants ctx (h ∷ handles) =
    mark_handle_roots grants (mark_object grants ctx h.target) handles

unfoldable pub drain_worklist : (ℕ → Bool) → Memory → ℕ → MarkCtx → Option MarkCtx
drain_worklist grants m zero ctx = none
drain_worklist grants m (suc fuel) ctx =
    let (obj, wl) = Worklist.pop ctx.wl in
    let popped = record ctx { wl = wl } in
    let rest = drain_worklist grants m fuel (mark_slots grants m popped (object_slots m obj)) in
    if obj == null then some popped else rest

-- The nodes that stay, unmarked, and the runtime after the others are reclaimed.
unfoldable pub sweep : {S : Type 0} → Runtime S → List Node → Runtime S × List Node
sweep rt [] = (rt, [])
sweep rt (n ∷ ns) = elim n.marked [
  | true ↦ let (rt', ns') = sweep rt ns in (rt', record n { marked = false } ∷ ns')
  | false ↦ sweep (reclaim_object rt n.obj) ns
]

-- The roots that the VM's hook visits.
abbrev pub root_slots : {S : Type 0} → Runtime S → List Ptr
root_slots rt = elim rt.scan_roots [ none ↦ [] | some slots ↦ slots ]

abbrev pub start_ctx : {S : Type 0} → Runtime S → List Node → MarkCtx
start_ctx rt objects = record {
  objects = objects;
  wl = record {
    buffer = rt.worklist_data;
    is_allocated = rt.worklist_allocated;
    top = 0;
    capacity = rt.worklist_capacity;
  };
  requests = 0;
}

-- The mark phase: handles, root slots, and what they reach.
unfoldable pub mark_phase : {S : Type 0} → (ℕ → Bool) → Runtime S → List Node → Option MarkCtx
mark_phase grants rt objects =
    let handles = mark_handle_roots grants (start_ctx rt objects) rt.handles in
    let roots = mark_slots grants rt.memory handles (root_slots rt) in
    drain_worklist grants rt.memory (suc (length objects)) roots

-- `rt->worklist_data = wl.data`, `rt->worklist_capacity = wl.capacity`
abbrev pub keep_worklist : {S : Type 0} → Runtime S → Worklist → Runtime S
keep_worklist rt wl = record rt {
  worklist_data = wl.buffer;
  worklist_allocated = wl.is_allocated;
  worklist_capacity = wl.capacity;
}

unfoldable pub collect_full_impl :
    (ℕ → Bool) → Runtime MarkSweepState → Option (Runtime MarkSweepState)
collect_full_impl grants rt = elim rt.algo_state [
  | none ↦ some rt
  | some state ↦ elim (mark_phase grants rt state.objects) [
    | none ↦ none
    | some ctx ↦
        let (rt', objects) = sweep (keep_worklist rt ctx.wl) ctx.objects in
        some (record rt' { algo_state = some (record { objects = objects }) })
  ]
]
