-- ===== src/GenCopy/Minor.antt =====
-- The minor collection of src/algo/gen_copy_ms/young_copy.c.
use xgc.Barrier
use xgc.Barrier.{BarrierSet}
use xgc.GenCopy.{
  Forward, GenCopyState, Answers, MinorCtx, find_forward, promote, evacuate_slots, barriers_or,
}
use xgc.Heap
use xgc.MarkSweep.{root_slots, keep_worklist}
use xgc.Object.{Memory, object_slots, trace_object_slots_in_range}
use xgc.Runtime.{Runtime, Handle}
use xgc.Runtime.Reclaim.{finalizes, release_bytes}
use xgc.Worklist
use xgc.Prelude.{
  ℕ, zero, suc, ◌+◌, Bool, false, not, ◌&&◌, ◌||◌, Option, none, some, List, [], ◌∷◌, ◌++◌, ltb,
  ◌==◌, if◌then◌else◌, Ptr, null, length, is_none, add_size, mul_size,
}

-- The handles with the targets promoted.
unfoldable pub scan_handles : (ℕ → Answers) → MinorCtx → List Handle → MinorCtx × List Handle
scan_handles answers ctx [] = (ctx, [])
scan_handles answers ctx (h ∷ handles) =
    let (target, ctx1) = promote answers ctx h.target in
    let (ctx2, rest) = scan_handles answers ctx1 handles in
    (ctx2, record h { target = target } ∷ rest)

-- `gc_gen_dirty_card_visit_ctx`, with the array of owners as a list.
pub record DirtyCardVisit : Type 0 where
  pub minor : MinorCtx
  pub owners_to_clear : List Ptr
  pub owner_capacity : ℕ

unfoldable pub is_remembered : List Ptr → Ptr → Bool
is_remembered [] owner = false
is_remembered (o ∷ os) owner = o == owner || is_remembered os owner

-- `granted` says whether the array can grow to a capacity.
unfoldable pub remember_owner : (ℕ → Bool) → DirtyCardVisit → Ptr → DirtyCardVisit
remember_owner granted visit owner =
    let new_capacity = if ltb 0 visit.owner_capacity then mul_size visit.owner_capacity 2 else 8 in
    let full = length visit.owners_to_clear == visit.owner_capacity in
    if owner == null || is_remembered visit.owners_to_clear owner
    then visit
    else if full && not (granted new_capacity)
    then visit
    else record visit {
      owners_to_clear = visit.owners_to_clear ++ owner ∷ [];
      owner_capacity = if full then new_capacity else visit.owner_capacity;
    }

unfoldable pub visit_dirty_card :
    (ℕ → Answers) → (ℕ → Bool) → Ptr → ℕ → DirtyCardVisit → DirtyCardVisit
visit_dirty_card answers granted owner card_index visit =
    let card_size = visit.minor.rt.barriers.old_to_young.card_granularity in
    let byte_begin = mul_size card_index card_size in
    let byte_end = add_size byte_begin card_size in
    let slots = trace_object_slots_in_range visit.minor.rt.memory owner byte_begin byte_end in
    if owner == null
    then visit
    else remember_owner granted (record visit { minor = evacuate_slots answers visit.minor slots })
        owner

unfoldable pub clear_owners : BarrierSet → List Ptr → BarrierSet
clear_owners b [] = b
clear_owners b (o ∷ owners) =
    clear_owners (barriers_or (Barrier.clear_owner_dirty (some b) o) b) owners

unfoldable pub scan_dirty_cards : (ℕ → Answers) → (ℕ → Bool) → Bool → MinorCtx → MinorCtx
scan_dirty_cards answers granted snapshot_granted ctx =
    let start : DirtyCardVisit = record { minor = ctx; owners_to_clear = []; owner_capacity = 0 } in
    let visit =
      Barrier.visit_dirty_cards snapshot_granted (some ctx.rt.barriers)
        (visit_dirty_card answers granted) start in
    let minor = visit.minor in
    record minor {
      rt = record (minor.rt) { barriers = clear_owners minor.rt.barriers visit.owners_to_clear };
    }

-- `none` means that the fuel ran out.
unfoldable pub drain : (ℕ → Answers) → ℕ → MinorCtx → Option MinorCtx
drain answers zero ctx = none
drain answers (suc fuel) ctx =
    let (obj, wl) = Worklist.pop ctx.wl in
    let popped = record ctx { wl = wl } in
    let rest =
      drain answers fuel (evacuate_slots answers popped (object_slots ctx.rt.memory obj)) in
    if obj == null then some popped else rest

-- The walk over the used part of the nursery, object by object: each one that was not copied is
-- finalized. `none` means that the fuel ran out or that the walk came to an address where no object
-- starts.
unfoldable pub finalize_dead : ℕ → Memory → List Forward → Ptr → Ptr → Option Memory
finalize_dead zero m forwarded cursor stop = none
finalize_dead (suc fuel) m forwarded cursor stop = elim (m.header cursor) [
  | none ↦ if ltb cursor stop then none else some m
  | some h ↦
      let m' =
        if is_none (find_forward forwarded cursor) && finalizes h
        then record m { finalized = cursor ∷ m.finalized }
        else m in
      let rest = finalize_dead fuel m' forwarded (cursor + h.size) stop in
      if ltb cursor stop then rest else some m
]

-- What is left when the walk has made `m` of the memory.
abbrev pub with_finalized : Runtime GenCopyState → ℕ → Memory → Runtime GenCopyState
with_finalized rt used_before m = record rt {
  memory = m;
  stats = release_bytes rt.stats used_before;
}

-- An object takes a byte at least, so the used bytes are fuel enough.
unfoldable pub finalize_dead_nursery :
    Runtime GenCopyState → GenCopyState → ℕ → Option (Runtime GenCopyState)
finalize_dead_nursery rt state used_before =
    if state.nursery_space == null
    then some rt
    else elim (finalize_dead (suc used_before) rt.memory state.forwarded state.nursery_space
        (state.nursery_space + used_before)) [
          | none ↦ none
          | some m ↦ some (with_finalized rt used_before m)
        ]

abbrev pub start_minor : Runtime GenCopyState → GenCopyState → MinorCtx
start_minor rt state = record {
  rt = rt;
  state = record state { forwarded = [] };
  wl = record {
    buffer = rt.worklist_data;
    is_allocated = rt.worklist_allocated;
    top = 0;
    capacity = rt.worklist_capacity;
  };
  requests = 0;
}

-- The roots: handles, root slots, and the dirty cards of old objects.
unfoldable pub scan_all : (ℕ → Answers) → (ℕ → Bool) → Bool → MinorCtx → MinorCtx
scan_all answers granted snapshot_granted ctx =
    let (ctx1, handles) = scan_handles answers ctx ctx.rt.handles in
    let ctx2 = record ctx1 { rt = record (ctx1.rt) { handles = handles } } in
    let ctx3 = evacuate_slots answers ctx2 (root_slots ctx2.rt) in
    scan_dirty_cards answers granted snapshot_granted ctx3

-- The nursery is empty again.
abbrev pub reset_nursery : MinorCtx → Runtime GenCopyState → Runtime GenCopyState
reset_nursery ctx rt = record rt {
  heap = Heap.reset_young rt.heap;
  algo_state = some (record (ctx.state) { nursery_used = 0; forwarded = [] });
}

-- Each promotion takes another address of the nursery, so its capacity is fuel enough.
unfoldable pub collect_minor_impl :
    (ℕ → Answers) → (ℕ → Bool) → Bool → Runtime GenCopyState → Option (Runtime GenCopyState)
unfolding scan_all finalize_dead_nursery
collect_minor_impl answers granted snapshot_granted rt = elim rt.algo_state [
  | none ↦ some rt
  | some state ↦
      if state.nursery_space == null || state.nursery_used == 0
      then some rt
      else elim (drain answers (suc state.nursery_capacity)
          (scan_all answers granted snapshot_granted (start_minor rt state))) [
            | none ↦ none
            | some ctx ↦
                elim (finalize_dead_nursery (keep_worklist ctx.rt ctx.wl) ctx.state
                  state.nursery_used) [ none ↦ none | some rt' ↦ some (reset_nursery ctx rt') ]
          ]
]
