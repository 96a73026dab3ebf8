-- ===== src/GenCopy/Full.antt =====
-- The full collection of src/algo/gen_copy_ms/young_copy.c: a minor one, then marking and sweeping the
-- old generation. `gc_gen_find_old_node`, `gc_gen_mark_old`, its slot visitors, `gc_gen_mark_handles`
-- and `gc_gen_mark_drain` have the bodies of the mark-sweep algorithm's functions on nodes with the
-- same fields, and are those here.
use xgc.Barrier
use xgc.GenCopy.{GenCopyState, Answers, barriers_or, size_at}
use xgc.GenCopy.Minor.{collect_minor_impl}
use xgc.Heap
use xgc.MarkSweep.{
  Node, MarkCtx, find_node, mark_object, mark_slot, mark_slots, mark_handle_roots, drain_worklist,
  root_slots, start_ctx, keep_worklist,
}
use xgc.Object.{Memory}
use xgc.Runtime.{Runtime, Handle}
use xgc.Runtime.Reclaim.{reclaim_object}
use xgc.Prelude.{
  ℕ, suc, length, Bool, true, false, Option, none, some, List, [], ◌∷◌, ◌==◌, if◌then◌else◌, Ptr,
  null,
}

abbrev pub find_old_node : List Node → Ptr → Option Node
find_old_node = find_node

abbrev pub mark_old : (ℕ → Bool) → MarkCtx → Ptr → MarkCtx
mark_old = mark_object

-- `gc_gen_mark_root_slot` and `gc_gen_mark_child_slot` have one body.
abbrev pub mark_old_slot : (ℕ → Bool) → Memory → MarkCtx → Ptr → MarkCtx
mark_old_slot = mark_slot

abbrev pub mark_handles : (ℕ → Bool) → MarkCtx → List Handle → MarkCtx
mark_handles = mark_handle_roots

abbrev pub mark_drain : (ℕ → Bool) → Memory → ℕ → MarkCtx → Option MarkCtx
mark_drain = drain_worklist

module _ {S : Type 0} where
  unfoldable pub remove_old_node_accounting : Runtime S → Ptr → Runtime S
  remove_old_node_accounting rt obj = if obj == null then rt else record rt {
    barriers = barriers_or (Barrier.unregister_owner (some rt.barriers) obj) rt.barriers;
    heap = Heap.record_old_free rt.heap (size_at rt.memory obj);
  }

  -- The nodes that stay, unmarked, and the runtime after the others are reclaimed.
  unfoldable pub sweep_old : Runtime S → List Node → Runtime S × List Node
  sweep_old rt [] = (rt, [])
  sweep_old rt (n ∷ ns) = elim n.marked [
    | true ↦ let (rt', ns') = sweep_old rt ns in (rt', record n { marked = false } ∷ ns')
    | false ↦ sweep_old (reclaim_object (remove_old_node_accounting rt n.obj) n.obj) ns
  ]

-- The part after the minor collection. `grants` is as in `MarkSweep`.
unfoldable pub collect_old : (ℕ → Bool) → Runtime GenCopyState → Option (Runtime GenCopyState)
unfolding sweep_old
collect_old grants rt = elim rt.algo_state [
  | none ↦ some rt
  | some state ↦
      elim (mark_drain grants rt.memory (suc (length state.old_objects)) (
        mark_slots grants rt.memory
          (mark_handles grants (start_ctx rt state.old_objects) rt.handles) (root_slots rt))) [
            | none ↦ none
            | some ctx ↦
                let (rt', objects) = sweep_old (keep_worklist rt ctx.wl) ctx.objects in
                some (record rt' { algo_state = some (record state { old_objects = objects }) })
          ]
]

unfoldable pub collect_full_impl :
    (ℕ → Answers)
    → (ℕ → Bool)
    → Bool
    → (ℕ → Bool)
    → Runtime GenCopyState
    → Option (Runtime GenCopyState)
collect_full_impl answers granted snapshot_granted grants rt =
    elim (collect_minor_impl answers granted snapshot_granted rt) [
      | none ↦ none
      | some rt' ↦ collect_old grants rt'
    ]
