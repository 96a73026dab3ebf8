-- ===== src/Heap.antt =====
-- The space accounting of src/core/heap.c and its checker in src/core/invariants.c, on the field `heap`
-- of the runtime. The runtime is not NULL.
pub mod Accounts
mod Tests
use xgc.Prelude.{
  ℕ, ◌-◌, Bool, true, false, not, ◌&&◌, ◌||◌, Option, none, some, ltb, leb, ◌==◌, if◌then◌else◌,
  Ptr, null, add_size,
}

pub record GcHeap : Type 0 where
  pub young_base : Ptr
  pub young_capacity : ℕ
  pub young_used : ℕ
  pub large_object_threshold : ℕ
  pub old_object_count : ℕ
  pub old_object_bytes : ℕ

unfoldable pub init : ℕ → GcHeap
init large_object_threshold = record {
  young_base = null;
  young_capacity = 0;
  young_used = 0;
  large_object_threshold = large_object_threshold;
  old_object_count = 0;
  old_object_bytes = 0;
}

unfoldable pub set_young_space : GcHeap → Ptr → ℕ → GcHeap
set_young_space h base capacity = record h {
  young_base = base;
  young_capacity = capacity;
  young_used = if base == null then 0 else h.young_used;
}

unfoldable pub record_young_alloc : GcHeap → ℕ → GcHeap
record_young_alloc h bytes = record h { young_used = add_size h.young_used bytes }

unfoldable pub reset_young : GcHeap → GcHeap
reset_young h = record h { young_used = 0 }

unfoldable pub record_old_alloc : GcHeap → ℕ → GcHeap
record_old_alloc h bytes = record h {
  old_object_count = add_size h.old_object_count 1;
  old_object_bytes = add_size h.old_object_bytes bytes;
}

unfoldable pub record_old_free : GcHeap → ℕ → GcHeap
record_old_free h bytes = record h {
  old_object_count =
      if ltb 0 h.old_object_count then h.old_object_count - 1 else h.old_object_count;
  old_object_bytes = if leb bytes h.old_object_bytes then h.old_object_bytes - bytes else 0;
}

unfoldable pub check_invariants : GcHeap → Bool
check_invariants h =
    if h.young_base == null && (not (h.young_capacity == 0) || not (h.young_used == 0))
    then false
    else if not (h.young_base == null) && ltb h.young_capacity h.young_used
    then false
    else not (h.old_object_count == 0 && not (h.old_object_bytes == 0))
