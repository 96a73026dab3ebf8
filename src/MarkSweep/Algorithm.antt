-- ===== src/MarkSweep/Algorithm.antt =====
-- The functions of src/algo/marksweep/ms.c behind its table, and the table. What `calloc` and
-- `realloc` answer is an argument of each function that calls them.
use Prim.Native.Nat.{bit_or}
use xgc.MarkSweep.{Node, MarkSweepState, collect_full_impl}
use xgc.Object.{
  Header, Descriptor, desc_flag_has_finalizer, object_flag_finalizable, object_flag_pinned,
  alloc_pinned, set_header, calloc_object,
}
use xgc.Runtime.{Runtime, Stats, GcConfig, Vtable}
use xgc.Runtime.Flags.{has_flag, with_pin, without_pin, update_header}
use xgc.Runtime.Reclaim.{reclaim_object}
use xgc.Prelude.{
  ℕ, ◌%◌, ◌^◌, Bool, true, false, not, Option, none, some, List, [], ◌∷◌, ltb, ◌==◌, if◌then◌else◌,
  Ptr, null, add_size,
}

unfoldable pub global_init : Bool → Runtime MarkSweepState → GcConfig → Runtime MarkSweepState
global_init granted rt cfg =
    if granted then record rt { algo_state = some (record { objects = [] }) } else rt

-- The loop of `gc_marksweep_global_destroy`.
unfoldable pub reclaim_all : {S : Type 0} → Runtime S → List Node → Runtime S
reclaim_all rt [] = rt
reclaim_all rt (n ∷ ns) = reclaim_all (reclaim_object rt n.obj) ns

unfoldable pub global_destroy : Runtime MarkSweepState → Runtime MarkSweepState
unfolding reclaim_all
global_destroy rt = elim rt.algo_state [
  | none ↦ rt
  | some state ↦ record (reclaim_all rt state.objects) { algo_state = none }
]

-- The header that `gc_marksweep_alloc` writes.
unfoldable pub initial_header : Option Descriptor → ℕ → ℕ → Header
initial_header desc size alloc_flags = record {
  desc = desc;
  size = size % 2 ^ 32;
  flags =
      bit_or
        (elim desc [
          | none ↦ 0
          | some d ↦ if has_flag d.flags desc_flag_has_finalizer then object_flag_finalizable else 0
        ])
        (if has_flag alloc_flags alloc_pinned then object_flag_pinned else 0)
      % 2 ^ 16;
  kind = elim desc [ none ↦ 0 | some d ↦ d.kind ];
}

-- `total += size`, and the peak with it.
abbrev pub record_alloc : Stats → ℕ → Stats
record_alloc s size =
    let total = add_size s.total_allocated size in
    record s {
      total_allocated = total;
      peak_allocated = if ltb s.peak_allocated total then total else s.peak_allocated;
    }

-- `raw` is the address that `calloc` answers for the object; without a node it is freed again.
unfoldable pub alloc :
    Ptr → Bool → Runtime MarkSweepState → Option Descriptor → ℕ → ℕ → Ptr × Runtime MarkSweepState
unfolding initial_header
alloc raw node_granted rt desc size alloc_flags = elim rt.algo_state [
  | none ↦ (null, rt)
  | some state ↦ if raw == null then (null, rt) else if not node_granted then (null, rt) else (
    raw,
    record rt {
      algo_state = some (record { objects = record { obj = raw; marked = false } ∷ state.objects });
      stats = record_alloc rt.stats size;
      memory =
          set_header (calloc_object rt.memory raw size) raw
            (some (initial_header desc size alloc_flags));
    },
  )
]

abbrev pub post_alloc : Runtime MarkSweepState → Ptr → Runtime MarkSweepState
post_alloc rt obj = rt

abbrev pub write_barrier : Runtime MarkSweepState → Ptr → Ptr → Ptr → Ptr → Runtime MarkSweepState
write_barrier rt owner slot old_value new_value = rt

abbrev pub read_barrier : Runtime MarkSweepState → Ptr → Ptr × Runtime MarkSweepState
read_barrier rt slot = (if not (slot == null) then rt.memory.slot slot else null, rt)

-- `collect_minor`, `collect_major` and `collect_full` are this one function.
abbrev pub collect : (ℕ → Bool) → Runtime MarkSweepState → Option (Runtime MarkSweepState)
collect grants rt = collect_full_impl grants rt

unfoldable pub pin : Runtime MarkSweepState → Ptr → Runtime MarkSweepState
pin rt obj =
    if not (obj == null) then record rt { memory = update_header rt.memory obj with_pin } else rt

unfoldable pub unpin : Runtime MarkSweepState → Ptr → Runtime MarkSweepState
unpin rt obj =
    if not (obj == null) then record rt { memory = update_header rt.memory obj without_pin } else rt

-- What the allocator answers during one call through the table.
pub record Answers : Type 0 where
  pub state_granted : Bool
  pub object : Ptr
  pub node_granted : Bool
  pub grants : ℕ → Bool

-- `GC_MARKSWEEP_STW_VTABLE`
abbrev pub vtable : Answers → Vtable MarkSweepState
vtable a = record {
  has_name = true;
  caps = record {
    supports_moving = false;
    supports_compaction = false;
    supports_generations = false;
    requires_write_barrier = false;
    requires_read_barrier = false;
    supports_concurrent_mark = false;
    supports_concurrent_relocate = false;
    provides_deterministic_release = false;
  };
  global_init = some (global_init a.state_granted);
  global_destroy = some global_destroy;
  thread_init = some (λ rt. rt);
  thread_destroy = some (λ rt. rt);
  alloc =
      some
        (λ rt desc size alloc_flags. some (alloc a.object a.node_granted rt desc size alloc_flags));
  post_alloc = some post_alloc;
  write_barrier = some write_barrier;
  read_barrier = some read_barrier;
  collect_minor = some (collect a.grants);
  collect_major = some (collect a.grants);
  collect_full = some (collect a.grants);
  pin = some pin;
  unpin = some unpin;
}
