-- ===== src/BaconRajan.antt =====
-- The reference-counting algorithm of src/algo/bacon-rajan (gc_alloc.c, gc_collect.c, gc_assign.c,
-- gc_safepoint.c) as it stands: it allocates and pins, its write barrier does nothing, and its
-- collections reclaim nothing. It has no state of its own, so `algo_state` stays NULL.
pub mod Session
mod Tests
use xgc.MarkSweep.Algorithm.{initial_header, record_alloc}
use xgc.Object.{Descriptor, set_header, calloc_object}
use xgc.Runtime.{Runtime, GcConfig, Vtable}
use xgc.Runtime.Flags.{with_pin, without_pin, update_header}
use xgc.Prelude.{
  ℕ, Bool, true, false, not, ◌&&◌, Option, none, some, List, [], ◌∷◌, ltb, ◌==◌, if◌then◌else◌, Ptr,
  null, is_none, replicate,
}

-- The work stack is allocated if there is none but a capacity.
unfoldable pub global_init : {S : Type 0} → Bool → Runtime S → GcConfig → Runtime S
global_init granted rt cfg =
    if not rt.worklist_allocated && ltb 0 rt.worklist_capacity
    then (if granted
        then record rt {
          worklist_data = replicate rt.worklist_capacity null;
          worklist_allocated = true;
        }
        else rt)
    else rt

-- `raw` is the address that `calloc` answers. The header has the fields that the mark-sweep
-- algorithm writes.
unfoldable pub alloc : {S : Type 0} → Ptr → Runtime S → Option Descriptor → ℕ → ℕ → Ptr × Runtime S
unfolding initial_header
alloc raw rt desc total_size alloc_flags = if raw == null then (null, rt) else (
  raw,
  record rt {
    memory =
        set_header (calloc_object rt.memory raw total_size) raw
          (some (initial_header desc total_size alloc_flags));
    stats = record_alloc rt.stats total_size;
  },
)

abbrev pub post_alloc : {S : Type 0} → Runtime S → Ptr → Runtime S
post_alloc rt obj = rt

unfoldable pub read_barrier : {S : Type 0} → Runtime S → Ptr → Ptr × Runtime S
read_barrier rt slot = (if not (slot == null) then rt.memory.slot slot else null, rt)

unfoldable pub pin : {S : Type 0} → Runtime S → Ptr → Runtime S
pin rt obj =
    if not (obj == null) then record rt { memory = update_header rt.memory obj with_pin } else rt

unfoldable pub unpin : {S : Type 0} → Runtime S → Ptr → Runtime S
unpin rt obj =
    if not (obj == null) then record rt { memory = update_header rt.memory obj without_pin } else rt

abbrev pub write_barrier : {S : Type 0} → Runtime S → Ptr → Ptr → Ptr → Ptr → Runtime S
write_barrier rt owner slot old_value new_value = rt

abbrev pub collect_minor : {S : Type 0} → Runtime S → Option (Runtime S)
collect_minor rt = some rt

abbrev pub collect_major : {S : Type 0} → Runtime S → Option (Runtime S)
collect_major rt = some rt

-- The visitor that `scan_roots` is given does nothing.
abbrev pub noop_root_slot : {S : Type 0} → Runtime S → Ptr → Runtime S
noop_root_slot rt slot = rt

unfoldable pub visit_roots : {S : Type 0} → Runtime S → List Ptr → Runtime S
visit_roots rt [] = rt
visit_roots rt (slot ∷ slots) = visit_roots (noop_root_slot rt slot) slots

unfoldable pub collect_full : {S : Type 0} → Runtime S → Option (Runtime S)
unfolding visit_roots
collect_full rt = elim rt.scan_roots [ none ↦ some rt | some slots ↦ some (visit_roots rt slots) ]

abbrev pub enter_safepoint_and_park : {S : Type 0} → Runtime S → Runtime S
enter_safepoint_and_park rt = rt

-- `GC_BACON_RAJAN_VTABLE`, with what the allocator answers for the work stack and the object.
abbrev pub vtable : {S : Type 0} → Bool → Ptr → Vtable S
vtable granted object = record {
  has_name = true;
  caps = record {
    supports_moving = false;
    supports_compaction = false;
    supports_generations = false;
    requires_write_barrier = true;
    requires_read_barrier = false;
    supports_concurrent_mark = false;
    supports_concurrent_relocate = false;
    provides_deterministic_release = false;
  };
  global_init = some (global_init granted);
  global_destroy = some (λ rt. rt);
  thread_init = some (λ rt. rt);
  thread_destroy = some (λ rt. rt);
  alloc =
      some (λ rt desc total_size alloc_flags. some (alloc object rt desc total_size alloc_flags));
  post_alloc = some post_alloc;
  write_barrier = some write_barrier;
  read_barrier = some read_barrier;
  collect_minor = some collect_minor;
  collect_major = some collect_major;
  collect_full = some collect_full;
  pin = some pin;
  unpin = some unpin;
}
