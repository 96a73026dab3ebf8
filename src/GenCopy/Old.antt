-- ===== src/GenCopy/Old.antt =====
-- The old generation of src/algo/gen_copy_ms/young_copy.c between calls: its nodes, the card table
-- and the heap account agree.
pub mod Accounts
pub mod Adding
pub mod Sweeping
pub mod Collecting
pub mod Promoting
mod Tests
use xgc.Barrier
use xgc.Barrier.{BarrierSet}
use xgc.Object.{Header}
use xgc.Barrier.Valid
use xgc.Barrier.Valid.{registered}
use xgc.GenCopy.{GenCopyState}
use xgc.Heap.{GcHeap}
use xgc.MarkSweep.{Node}
use xgc.MarkSweep.Held.{held_bytes}
use xgc.MarkSweep.MarkPhase.{HasWorklist}
use xgc.MarkSweep.Nodes.{known, marked, Distinct}
use xgc.Runtime.{Runtime}
use xgc.Prelude.{◌≡◌, Bool, false, Option, some, List, Ptr, length}

-- The nodes of the old objects, the card table and the account agree: one unmarked node for each old
-- object, each of which is registered and counted once with its bytes.
pub record Agrees (b : BarrierSet) (h : GcHeap) (header : Ptr → Option Header) (ns : List Node)
    : Type 0 where
  pub distinct : Distinct ns
  pub white : (q : Ptr) → marked ns q ≡ false
  pub tracked : (q : Ptr) → registered b q ≡ known ns q
  pub count : h.old_object_count ≡ length ns
  pub bytes : h.old_object_bytes ≡ held_bytes header ns

-- The young part of the account.
pub record SameYoung (h0 h : GcHeap) : Type 0 where
  pub base : h.young_base ≡ h0.young_base
  pub capacity : h.young_capacity ≡ h0.young_capacity
  pub used : h.young_used ≡ h0.young_used

pub record IsOld (rt : Runtime GenCopyState) (state : GenCopyState) : Type 0 where
  pub attached : rt.algo_state ≡ some state
  pub worklist : HasWorklist rt
  pub barriers : Barrier.Valid.IsValid rt.barriers
  pub agrees : Agrees rt.barriers rt.heap rt.memory.header state.old_objects
