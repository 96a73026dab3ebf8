-- ===== src/GenCopy/Algorithm.antt =====
-- Creation, destruction, allocation and the write barrier of src/algo/gen_copy_ms/young_copy.c.
use Prim.Native.Nat.{bit_or}
use xgc.Barrier
use xgc.GenCopy.{GenCopyState, Answers, in_nursery, add_old_node, barriers_or, freed}
use xgc.GenCopy.Full.{remove_old_node_accounting}
use xgc.GenCopy.Minor.{collect_minor_impl}
use xgc.Heap
use xgc.MarkSweep.{Node}
use xgc.MarkSweep.Algorithm.{record_alloc}
use xgc.Object.{
  Memory, Header, Descriptor, set_header, calloc_object, header_size, alloc_pinned,
  object_flag_pinned, object_flag_finalizable, desc_flag_has_finalizer,
}
use xgc.Runtime.{Runtime, GcConfig}
use xgc.Runtime.Flags.{has_flag}
use xgc.Runtime.Reclaim.{reclaim_object}
use xgc.Prelude.{
  ℕ, ◌+◌, ◌*◌, ◌/◌, ◌%◌, ◌^◌, Bool, not, ◌&&◌, ◌||◌, Option, none, some, List, [], ◌∷◌, ltb, leb,
  ◌==◌, if◌then◌else◌, Ptr, null, add_size,
}

-- `space` is what `malloc` answers for the nursery.
unfoldable pub global_init : Bool → Ptr → Runtime GenCopyState → GcConfig → Runtime GenCopyState
global_init state_granted space rt cfg =
    let nursery_size =
      if not (cfg.gc_young_space_size == 0) then cfg.gc_young_space_size else 4 * 1024 * 1024 in
    if not state_granted then rt else if space == null then rt else record rt {
      heap = Heap.set_young_space rt.heap space nursery_size;
      algo_state = some (record {
        nursery_space = space;
        nursery_capacity = nursery_size;
        nursery_used = 0;
        old_objects = [];
        forwarded = [];
      });
    }

unfoldable pub release_old : Runtime GenCopyState → List Node → Runtime GenCopyState
release_old rt [] = rt
release_old rt (n ∷ ns) =
    release_old (reclaim_object (remove_old_node_accounting rt n.obj) n.obj) ns

unfoldable pub global_destroy : Runtime GenCopyState → Runtime GenCopyState
unfolding release_old
global_destroy rt = elim rt.algo_state [
  | none ↦ rt
  | some state ↦
      let rt' = release_old rt state.old_objects in
      record rt' { heap = Heap.set_young_space rt'.heap null 0; algo_state = none }
]

-- `(size + 7) & ~7`, in `size_t`.
unfoldable pub aligned : ℕ → ℕ
aligned size = add_size size 7 / 8 * 8

abbrev pub header_of : Descriptor → ℕ → ℕ → Header
header_of desc aligned_size pin = record {
  desc = some desc;
  size = aligned_size % 2 ^ 32;
  flags =
      bit_or (if has_flag desc.flags desc_flag_has_finalizer then object_flag_finalizable else 0)
        pin
      % 2 ^ 16;
  kind = desc.kind;
}

-- `memset(obj, 0, size)` in the nursery: no older object starts there any more.
unfoldable pub wiped : Memory → Ptr → ℕ → Memory
wiped m obj size = record m {
  header = λ q. if leb obj q && ltb q (obj + size) then none else m.header q;
  slot = λ s. if leb obj s && ltb s (obj + size) then null else m.slot s;
}

unfoldable pub alloc_young :
    Runtime GenCopyState → GenCopyState → Descriptor → ℕ → Ptr × Runtime GenCopyState
unfolding wiped
alloc_young rt state desc aligned_size =
    let obj = state.nursery_space + state.nursery_used in
    (
      obj,
      record rt {
        algo_state =
            some (record state { nursery_used = add_size state.nursery_used aligned_size });
        heap = Heap.record_young_alloc rt.heap aligned_size;
        stats = record_alloc rt.stats aligned_size;
        memory =
            set_header (wiped rt.memory obj aligned_size) obj
              (some (header_of desc aligned_size 0));
      },
    )

-- `raw` is what `calloc` answers.
unfoldable pub alloc_old :
    Answers
    → Ptr
    → Runtime GenCopyState
    → GenCopyState
    → Descriptor
    → ℕ
    → ℕ
    → Ptr × Runtime GenCopyState
alloc_old a raw rt state desc aligned_size alloc_flags =
    let pin = if has_flag alloc_flags alloc_pinned then object_flag_pinned else 0 in
    let made = record rt {
      memory =
          set_header (calloc_object rt.memory raw aligned_size) raw
            (some (header_of desc aligned_size pin));
    } in
    let (added, rt', state') = add_old_node a made state raw in
    if raw == null
    then (null, rt)
    else if not added
    then (null, freed rt' raw)
    else (raw, record rt' { algo_state = some state'; stats = record_alloc rt'.stats aligned_size })

-- After a collection for room, if there was one.
abbrev pub alloc_in :
    Answers → Ptr → Descriptor → ℕ → ℕ → Runtime GenCopyState → Ptr × Runtime GenCopyState
alloc_in a raw desc aligned_size alloc_flags rt = elim rt.algo_state [
  | none ↦ (null, rt)
  | some state ↦
      if leb (add_size state.nursery_used aligned_size) state.nursery_capacity
      then alloc_young rt state desc aligned_size
      else alloc_old a raw rt state desc aligned_size alloc_flags
]

-- `none` means that the collection ran out of fuel. `answers`, `granted` and `snapshot_granted` are
-- those of a minor collection.
unfoldable pub alloc :
    (ℕ → Answers)
    → (ℕ → Bool)
    → Bool
    → Answers
    → Ptr
    → Runtime GenCopyState
    → Option Descriptor
    → ℕ
    → ℕ
    → Option (Ptr × Runtime GenCopyState)
unfolding alloc_young alloc_old
alloc answers granted snapshot_granted a raw rt none size alloc_flags = some (null, rt)
alloc answers granted snapshot_granted a raw rt (some desc) size alloc_flags = elim rt.algo_state [
  | none ↦ some (null, rt)
  | some state ↦
      let aligned_size = aligned size in
      if ltb size header_size
      then some (null, rt)
      else if not (has_flag alloc_flags alloc_pinned)
          && leb aligned_size (state.nursery_capacity / 2)
      then (if ltb state.nursery_capacity (add_size state.nursery_used aligned_size)
          then elim (collect_minor_impl answers granted snapshot_granted rt) [
            | none ↦ none
            | some rt' ↦ some (alloc_in a raw desc aligned_size alloc_flags rt')
          ]
          else some (alloc_in a raw desc aligned_size alloc_flags rt))
      else some (alloc_old a raw rt state desc aligned_size alloc_flags)
]

unfoldable pub write_barrier : Runtime GenCopyState → Ptr → Ptr → Ptr → Ptr → Runtime GenCopyState
write_barrier rt owner slot old_value new_value =
    if owner == null || (slot == null || new_value == null) then rt else elim rt.algo_state [
      | none ↦ rt
      | some state ↦
          if in_nursery state owner
          then rt
          else if not (in_nursery state new_value)
          then rt
          else record rt {
            barriers =
                barriers_or (Barrier.mark_slot_dirty (some rt.barriers) owner slot) rt.barriers;
          }
    ]
