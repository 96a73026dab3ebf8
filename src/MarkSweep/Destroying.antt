-- ===== src/MarkSweep/Destroying.antt =====
-- `gc_runtime_destroy` with the algorithm of src/algo/marksweep/ms.c: every object of the collector is
-- freed.
use xgc.MarkSweep.{Node, MarkSweepState, find_node, sweep}
use xgc.MarkSweep.Algorithm.{Answers, vtable, global_destroy, reclaim_all}
use xgc.MarkSweep.Collecting.{IsReady}
use xgc.MarkSweep.Nodes.{known, marked, Distinct}
use xgc.MarkSweep.Sweeping.{sweep-Swept}
use xgc.Runtime.{Runtime}
use xgc.Runtime.Creation.{destroy}
use xgc.Runtime.Freeing.{finalizes_at, times}
use xgc.Runtime.Reclaim.{reclaim_object}
use xgc.Prelude.{
  ◌+◌, ◌≡◌, ◌∙◌, refl, ap, false, ◌&&◌, none, List, [], ◌∷◌, arith, if◌then◌else◌, Ptr,
}

-- On unmarked nodes the loop does what the sweep does.
reclaim_all-sweep :
    {S : Type 0} (rt : Runtime S) (ns : List Node)
    → Distinct ns
    → ((q : Ptr) → marked ns q ≡ false)
    → reclaim_all rt ns ≡ (sweep rt ns).0
unfolding reclaim_all sweep
reclaim_all-sweep rt [] d w = refl
reclaim_all-sweep rt (n ∷ ns) d w =
    rw (front, sweep) (reclaim_all-sweep (reclaim_object rt n.obj) ns d.2 rest)
  where
    front : n.marked ≡ false
    front = unfold marked find_node in ground (arith, w n.obj)

    same : (q : Ptr) → n.obj ≡ q → find_node ns n.obj ≡ find_node ns q
    same q e = ap (find_node ns) e

    rest : (q : Ptr) → marked ns q ≡ false
    rest q = unfold marked known find_node in ground (arith, w q, d.0, same q)

module _ (a : Answers) (rt : Runtime MarkSweepState) (state : MarkSweepState)
    (ready : IsReady rt state) where
  destroy_eq : destroy (vtable a) rt ≡ (sweep (record rt { handles = [] }) state.objects).0.memory
  unfolding destroy global_destroy
  destroy_eq =
      start
      ∙ ap (λ r. r.memory)
          (reclaim_all-sweep (record rt { handles = [] }) state.objects ready.distinct ready.white)
    where
      start :
          destroy (vtable a) rt ≡ (reclaim_all (record rt { handles = [] }) state.objects).memory
      start = rw ready.attached refl

  -- Destroying a ready runtime frees every object of the collector and finalizes it once if its
  -- type has a finalizer, and it touches no other object and no slot.
  pub destroy_lem :
      (q s : Ptr)
      → ((destroy (vtable a) rt).header q
          ≡ (if known state.objects q then none else rt.memory.header q))
        × (times q (destroy (vtable a) rt).finalized
            ≡ (if known state.objects q && finalizes_at (rt.memory.header q) then 1 else 0)
              + times q rt.memory.finalized)
        × ((destroy (vtable a) rt).slot s ≡ rt.memory.slot s)
  destroy_lem q s =
      let e = sweep-Swept (record rt { handles = [] }) state.objects ready.distinct in
      rw destroy_eq (
        ground (arith, e.header q, ready.white q),
        ground (arith, e.finalized q, ready.white q),
        e.rest.slot s,
      )
