-- ===== src/MarkSweep/Collecting.antt =====
-- A full collection of src/algo/marksweep/ms.c: it ends, keeps exactly the live objects, and frees
-- and finalizes the others.
use xgc.MarkSweep.Clearing.{Cleared, swept, mark_sweep-Cleared}
use xgc.MarkSweep.{MarkCtx, MarkSweepState, mark_phase, collect_full_impl}
use xgc.MarkSweep.Nodes.{known, marked, Distinct}
use xgc.MarkSweep.MarkPhase.{HasWorklist, Live}
use xgc.MarkSweep.Sweeping.{dead_bytes}
use xgc.MarkSweep.Held.{held_bytes}
use xgc.Runtime.{Runtime}
use xgc.Runtime.Freeing.{finalizes_at, times}
use xgc.Prelude.{
  ℕ, ◌+◌, ◌-◌, ◌≡◌, ◌↔◌, refl, sym, Bool, true, false, not, ◌&&◌, none, some, arith, if◌then◌else◌,
  Ptr, Ends, subst,
}

-- Between collections: one unmarked node for each object, and the runtime's stack memory in order.
pub record IsReady (rt : Runtime MarkSweepState) (state : MarkSweepState) : Type 0 where
  pub attached : rt.algo_state ≡ some state
  pub distinct : Distinct state.objects
  pub white : (q : Ptr) → marked state.objects q ≡ false
  pub worklist : HasWorklist rt

-- The collection from `rt` with the objects of `state` to `rt'` with those of `state'`.
pub record Collected (rt : Runtime MarkSweepState) (state : MarkSweepState)
    (rt' : Runtime MarkSweepState) (state' : MarkSweepState) : Type 0 where
  pub ready : IsReady rt' state'
  pub kept : (q : Ptr) → (known state'.objects q ≡ true) ↔ ∥ Live rt state.objects q ∥₁
  pub headers :
      (q : Ptr)
      → rt'.memory.header q ≡ (
          if known state.objects q && not (known state'.objects q)
          then none
          else rt.memory.header q)
  pub finalized :
      (q : Ptr)
      → times q rt'.memory.finalized
        ≡ (if known state.objects q
              && not (known state'.objects q)
              && finalizes_at (rt.memory.header q)
            then 1
            else 0)
          + times q rt.memory.finalized
  pub slots : (s : Ptr) → rt'.memory.slot s ≡ rt.memory.slot s
  pub handles : rt'.handles ≡ rt.handles
  pub barriers : rt'.barriers ≡ rt.barriers
  pub heap : rt'.heap ≡ rt.heap
  pub gc_state : rt'.gc_state ≡ rt.gc_state
  pub peak : rt'.stats.peak_allocated ≡ rt.stats.peak_allocated
  -- The bytes of the objects that are gone are off the total.
  pub total :
      (freed : ℕ) × (held_bytes rt.memory.header state.objects
        ≡ freed + held_bytes rt.memory.header state'.objects)
      × (rt'.stats.total_allocated ≡ rt.stats.total_allocated - freed)

module _ (grants : ℕ → Bool) (granted : (n : ℕ) → grants n ≡ true) (rt : Runtime MarkSweepState)
    (state : MarkSweepState) (ready : IsReady rt state) where
  module _ (c : MarkCtx) (ends : mark_phase grants rt state.objects ≡ some c) where
    abbrev left : MarkSweepState
    left = record { objects = (swept rt c).1 }

    abbrev collected : Runtime MarkSweepState
    collected = record ((swept rt c).0) { algo_state = some left }

    collect_full_eq : collect_full_impl grants rt ≡ some collected
    unfolding collect_full_impl
    collect_full_eq = ground (arith, ready.attached, ends)

    collected-Collected : Cleared rt state.objects c → Collected rt state collected left
    collected-Collected k = record {
      ready = record {
        attached = refl;
        distinct = k.distinct;
        white = k.white;
        worklist = record { size = k.worklist.size; pointer = k.worklist.pointer };
      };
      kept = k.kept;
      headers = k.headers;
      finalized = k.finalized;
      slots = k.rest.slot;
      handles = k.rest.handles;
      barriers = k.rest.barriers;
      heap = k.rest.heap;
      gc_state = k.rest.gc_state;
      peak = k.rest.peak;
      total = (dead_bytes rt.memory.header c.objects, k.divided rt.memory.header, k.total);
    }

  -- In a runtime that is ready (its state attached, one unmarked node for each object, its stack
  -- memory as its capacity says), with every request for a larger work stack granted, a full
  -- collection ends; it keeps exactly the live objects, those reachable from handles and root
  -- slots through traced slots, with their headers and all slots, frees every other object of the
  -- collector, finalizes it once if its type has a finalizer, takes its bytes off the total, and
  -- leaves the collector ready for the next one.
  pub collect_full_lem :
      Ends
        (λ rt'. (state' : MarkSweepState) × Collected rt state rt' state')
        (collect_full_impl grants rt)
  collect_full_lem =
      let (c, ends, _, k) =
        mark_sweep-Cleared grants granted rt state.objects ready.worklist ready.distinct
          ready.white in
      subst (Ends (λ rt'. (state' : MarkSweepState) × Collected rt state rt' state'))
        (sym (collect_full_eq c ends)) (left c ends, collected-Collected c ends k)
