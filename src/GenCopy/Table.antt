-- ===== src/GenCopy/Table.antt =====
-- The remaining functions of src/algo/gen_copy_ms/young_copy.c and its table.
use xgc.GenCopy.{GenCopyState, Answers}
use xgc.GenCopy.Algorithm.{global_init, global_destroy, alloc, write_barrier}
use xgc.GenCopy.Full.{collect_full_impl}
use xgc.GenCopy.Minor.{collect_minor_impl}
use xgc.Runtime.{Runtime, Vtable}
use xgc.Runtime.Flags.{with_pin, without_pin, update_header}
use xgc.Prelude.{ℕ, Bool, true, false, not, Option, some, ◌==◌, if◌then◌else◌, Ptr, null}

abbrev pub post_alloc : Runtime GenCopyState → Ptr → Runtime GenCopyState
post_alloc rt obj = rt

unfoldable pub read_barrier : Runtime GenCopyState → Ptr → Ptr × Runtime GenCopyState
read_barrier rt slot = (if not (slot == null) then rt.memory.slot slot else null, rt)

unfoldable pub pin : Runtime GenCopyState → Ptr → Runtime GenCopyState
pin rt obj =
    if not (obj == null) then record rt { memory = update_header rt.memory obj with_pin } else rt

unfoldable pub unpin : Runtime GenCopyState → Ptr → Runtime GenCopyState
unpin rt obj =
    if not (obj == null) then record rt { memory = update_header rt.memory obj without_pin } else rt

-- What the allocator answers during one call through the table: for the state and the nursery, for
-- each promotion, the array of owners, the snapshot of dirty cards and the growing work stack of a
-- collection, and for an old object (`old` with its address `raw`).
pub record CallAnswers : Type 0 where
  pub state_granted : Bool
  pub space : Ptr
  pub promotions : ℕ → Answers
  pub owners_granted : ℕ → Bool
  pub snapshot_granted : Bool
  pub grants : ℕ → Bool
  pub old : Answers
  pub raw : Ptr

abbrev pub collect_minor : CallAnswers → Runtime GenCopyState → Option (Runtime GenCopyState)
collect_minor a rt = collect_minor_impl a.promotions a.owners_granted a.snapshot_granted rt

-- `collect_major` and `collect_full` are this one function.
abbrev pub collect : CallAnswers → Runtime GenCopyState → Option (Runtime GenCopyState)
collect a rt = collect_full_impl a.promotions a.owners_granted a.snapshot_granted a.grants rt

-- `GC_GEN_COPY_MS_VTABLE`
abbrev pub vtable : CallAnswers → Vtable GenCopyState
vtable a = record {
  has_name = true;
  caps = record {
    supports_moving = true;
    supports_compaction = false;
    supports_generations = true;
    requires_write_barrier = true;
    requires_read_barrier = false;
    supports_concurrent_mark = false;
    supports_concurrent_relocate = false;
    provides_deterministic_release = false;
  };
  global_init = some (global_init a.state_granted a.space);
  global_destroy = some global_destroy;
  thread_init = some (λ rt. rt);
  thread_destroy = some (λ rt. rt);
  alloc = some (alloc a.promotions a.owners_granted a.snapshot_granted a.old a.raw);
  post_alloc = some post_alloc;
  write_barrier = some write_barrier;
  read_barrier = some read_barrier;
  collect_minor = some (collect_minor a);
  collect_major = some (collect a);
  collect_full = some (collect a);
  pin = some pin;
  unpin = some unpin;
}
