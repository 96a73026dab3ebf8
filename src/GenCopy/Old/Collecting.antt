-- ===== src/GenCopy/Old/Collecting.antt =====
-- The collection of the old generation (`gc_gen_collect_full_impl` of src/algo/gen_copy_ms/young_copy.c
-- after its minor collection): it ends, keeps exactly the live objects, and takes the others out of
-- the card table and the heap account.
use xgc.Barrier.{BarrierSet}
use xgc.Barrier.Valid.{dirty}
use xgc.GenCopy.{GenCopyState}
use xgc.GenCopy.Full.{sweep_old, collect_old}
use xgc.GenCopy.Old.{IsOld, SameYoung}
use xgc.GenCopy.Old.Accounts.{with_accounts, unit_header, held_bytes-unit, held_bytes_sizes}
use xgc.GenCopy.Old.Sweeping.{Accounted, sweep_old-Accounted}
use xgc.Heap.{GcHeap}
use xgc.MarkSweep.{MarkCtx, mark_phase, keep_worklist}
use xgc.MarkSweep.Clearing.{Cleared, swept, mark_sweep-Cleared}
use xgc.MarkSweep.Held.{held_bytes}
use xgc.MarkSweep.MarkPhase.{Live}
use xgc.MarkSweep.Nodes.{known}
use xgc.Runtime.{Runtime}
use xgc.Runtime.Freeing.{bytes_at, finalizes_at, times}
use xgc.Prelude.{
  ap, ℕ, ◌+◌, ◌-◌, ◌≡◌, ◌↔◌, refl, sym, Bool, true, not, ◌&&◌, none, some, arith, if◌then◌else◌,
  Ptr, Ends, subst,
}

-- The collection from `rt` with the old objects of `state` to `rt'` with those of `state'`.
pub record CollectedOld (rt : Runtime GenCopyState) (state : GenCopyState)
    (rt' : Runtime GenCopyState) (state' : GenCopyState) : Type 0 where
  pub old : IsOld rt' state'
  pub kept : (q : Ptr) → (known state'.old_objects q ≡ true) ↔ ∥ Live rt state.old_objects q ∥₁
  pub subset : (q : Ptr) → known state'.old_objects q ≡ true → known state.old_objects q ≡ true
  pub headers :
      (q : Ptr)
      → rt'.memory.header q ≡ (
          if known state.old_objects q && not (known state'.old_objects q)
          then none
          else rt.memory.header q)
  pub finalized :
      (q : Ptr)
      → times q rt'.memory.finalized
        ≡ (if known state.old_objects q
              && not (known state'.old_objects q)
              && finalizes_at (rt.memory.header q)
            then 1
            else 0)
          + times q rt.memory.finalized
  pub slots : (s : Ptr) → rt'.memory.slot s ≡ rt.memory.slot s
  pub handles : rt'.handles ≡ rt.handles
  pub cards :
      (q : Ptr) (j : ℕ)
      → dirty rt'.barriers q j ≡ (
          not (known state.old_objects q && not (known state'.old_objects q))
          && dirty rt.barriers q j)
  pub total :
      rt'.stats.total_allocated
      ≡ rt.stats.total_allocated - (rt.heap.old_object_bytes - rt'.heap.old_object_bytes)
  pub nursery : state' ≡ record state { old_objects = state'.old_objects }
  pub young : SameYoung rt.heap rt'.heap

module _ (grants : ℕ → Bool) (rt : Runtime GenCopyState) (state : GenCopyState)
    (o : IsOld rt state) where
  module _ (c : MarkCtx) (ends : mark_phase grants rt state.old_objects ≡ some c) (b : BarrierSet)
      (h : GcHeap)
      (sweeps : sweep_old (keep_worklist rt c.wl) c.objects
        ≡ (with_accounts (swept rt c).0 b h, (swept rt c).1))
      (k : Cleared rt state.old_objects c)
      (a : Accounted rt.memory.header c.objects rt.barriers rt.heap b h) where
    abbrev left : GenCopyState
    left = record state { old_objects = (swept rt c).1 }

    abbrev collected : Runtime GenCopyState
    collected = record (with_accounts (swept rt c).0 b h) { algo_state = some left }

    collect_old_eq : collect_old grants rt ≡ some collected
    unfolding collect_old mark_phase
    collect_old_eq = ground (arith, o.attached, ends, sweeps)

    same_bytes :
        held_bytes (swept rt c).0.memory.header left.old_objects
        ≡ held_bytes rt.memory.header left.old_objects
    same_bytes = held_bytes_sizes _ _ left.old_objects λ q on.
        ap bytes_at {x = (swept rt c).0.memory.header q} {y = rt.memory.header q}
          (ground (arith, k.headers q, on))

    collected-IsOld : IsOld collected left
    collected-IsOld = record {
      attached = refl;
      worklist = record { size = k.worklist.size; pointer = k.worklist.pointer };
      barriers = a.valid;
      agrees = record {
        distinct = k.distinct;
        white = k.white;
        tracked = λ q. ground (arith, a.owners q, k.dead_eq q, o.agrees.tracked q, k.subset q);
        count = omega (
          arith,
          a.count,
          o.agrees.count,
          k.divided unit_header,
          held_bytes-unit state.old_objects,
          held_bytes-unit left.old_objects,
        );
        bytes = omega (arith, a.bytes, o.agrees.bytes, k.divided rt.memory.header, same_bytes);
      };
    }

    collected-CollectedOld : CollectedOld rt state collected left
    collected-CollectedOld = record {
      old = collected-IsOld;
      kept = k.kept;
      subset = k.subset;
      headers = k.headers;
      finalized = k.finalized;
      slots = k.rest.slot;
      handles = k.rest.handles;
      cards = λ q j. ground (arith, a.cards q j, k.dead_eq q);
      total = omega (arith, k.total, a.bytes, o.agrees.bytes, k.divided rt.memory.header);
      nursery = refl;
      young = a.young;
    }

  -- If the old generation is in order and every request for a larger work stack is granted, its
  -- collection ends. It keeps exactly the old objects that are reachable, with their headers, slots
  -- and dirty cards; every other old object is freed, finalized once if its type has a finalizer,
  -- taken off the total, and no longer registered or counted; and the old generation is in order.
  -- The nursery stays as it is.
  pub collect_old-CollectedOld :
      ((n : ℕ) → grants n ≡ true)
      → Ends
          (λ rt'. (state' : GenCopyState) × CollectedOld rt state rt' state')
          (collect_old grants rt)
  collect_old-CollectedOld granted =
      let (c, ends, distinct, k) =
        mark_sweep-Cleared grants granted rt state.old_objects o.worklist o.agrees.distinct
          o.agrees.white in
      let (b, h, sweeps, a) =
        sweep_old-Accounted (keep_worklist rt c.wl) c.objects distinct o.barriers in
      subst (Ends (λ rt'. (state' : GenCopyState) × CollectedOld rt state rt' state'))
        (sym (collect_old_eq c ends b h sweeps k a))
        (left c ends b h sweeps k a, collected-CollectedOld c ends b h sweeps k a)
