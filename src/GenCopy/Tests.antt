-- ===== src/GenCopy/Tests.antt =====
-- A minor collection of src/algo/gen_copy_ms/young_copy.c: a root slot holds the first of two nursery
-- objects, the second is garbage with a finalizer.
use xgc.Barrier
use xgc.Barrier.{BarrierSet, set_init}
use xgc.Barrier.Valid.{IsValid}
use xgc.Barrier.Steps.{start, next, register, Reach-IsValid}
use xgc.CardTable
use xgc.CardTable.{CardEntry, find_from, find_entry, effective_granularity}
use xgc.CardTable.Registration
use xgc.CardTable.Snapshots
use xgc.Bitmap
use xgc.Worklist
use xgc.CardTable.Entries.{sum_of}
use xgc.GenCopy.{
  GenCopyState, Answers, promote, in_nursery, find_forward, copy_out, add_old_node, copy_object,
  evacuate_slot, evacuate_slots,
}
use xgc.GenCopy.Algorithm.{write_barrier, alloc, aligned}
use xgc.GenCopy.Bumping.{Bumped, alloc-Bumped}
use xgc.GenCopy.Barriers.{Remembered, write_barrier-visit}
use xgc.GenCopy.Forwarding.{promote-promote}
use xgc.GenCopy.Progress.{Served, alloc-Served}
use xgc.GenCopy.MinorEnds.{Emptied, collect_minor-Ends}
use xgc.GenCopy.Minor.{
  collect_minor_impl, start_minor, scan_all, scan_handles, scan_dirty_cards, visit_dirty_card,
  remember_owner, clear_owners, drain, finalize_dead, finalize_dead_nursery,
}
use xgc.GenCopy.Walking.{WholeObjects, finished, object}
use xgc.Heap
use xgc.Object.{Header, Descriptor, set_header, set_slot, object_slots}
use xgc.Runtime.{Runtime}
use xgc.Runtime.Config.{config_init_default}
use xgc.Prelude.{
  Ends, ℕ, ◌+◌, ◌≤◌, ◌<◌, ◌≡◌, ◌≢◌, refl, Bool, true, false, Option, none, some, List, [], ◌∷◌,
  arith, ◌==◌, if◌then◌else◌, Ptr,
}

abbrev pub linked : Descriptor
linked = record {
  fixed_size = 24;
  flags = 2;
  kind = 1;
  trace_slots = some (λ obj. (obj + 16) ∷ []);
  trace_slots_range = none;
  has_finalize = true;
}

abbrev pub small_nursery : GenCopyState
small_nursery = record {
  nursery_space = 1000;
  nursery_capacity = 96;
  nursery_used = 48;
  old_objects = record { obj = 4096; marked = false } ∷ [];
  forwarded = [];
}

abbrev pub linked_header : Header
linked_header = record { desc = some linked; size = 24; flags = 0; kind = 1 }

abbrev pub large_header : Header
large_header = record { desc = some linked; size = 600; flags = 0; kind = 1 }

abbrev pub old_entry : CardEntry
old_entry = record {
  owner_base = 4096;
  owner_size = 600;
  card_count = 3;
  dirty_card_count = 0;
  dirty_map = record { bits = some (0 ∷ []); bit_count = 3; byte_count = 1 };
}

-- An old object of 600 bytes is registered.
abbrev pub one_old : BarrierSet
one_old = record {
  old_to_young = record {
    entries = old_entry ∷ [];
    is_allocated = true;
    capacity = 32;
    card_granularity = 256;
  };
  dirty_old_objects = 0;
  dirty_cards = 0;
}

abbrev pub two_young : Runtime GenCopyState
two_young = record {
  cfg = config_init_default;
  heap = record {
    young_base = 1000;
    young_capacity = 96;
    young_used = 48;
    large_object_threshold = 32768;
    old_object_count = 1;
    old_object_bytes = 600;
  };
  barriers = one_old;
  stats = record {
    total_allocated = 48;
    peak_allocated = 48;
    minor_collections = 0;
    major_collections = 0;
    full_collections = 0;
  };
  algo_state = some small_nursery;
  handles = [];
  worklist_data = 0 ∷ 0 ∷ [];
  worklist_allocated = true;
  worklist_capacity = 2;
  gc_state = 0;
  scan_roots = some (8 ∷ []);
  memory = record {
    header = λ p.
        if p == 1000
        then some linked_header
        else if p == 1024
        then some linked_header
        else if p == 4096
        then some large_header
        else none;
    slot = λ s. if s == 8 then 1000 else 0;
    finalized = [];
  };
}

-- The n-th copy is placed from 8192 on.
abbrev pub roomy : ℕ → Answers
roomy n = record {
  copy = 8192 + n;
  forward_granted = true;
  node_granted = true;
  array_granted = true;
  bits_granted = true;
  push_granted = true;
}

abbrev pub always : ℕ → Bool
always n = true

-- What the root slot holds afterwards, and what was finalized.
abbrev outcome : Option (Runtime GenCopyState) → Ptr × List Ptr
outcome none = (0, [])
outcome (some rt) = (rt.memory.slot 8, rt.memory.finalized)

run_minor : outcome (collect_minor_impl roomy always true two_young) ≡ (8192, 1024 ∷ [])
unfolding collect_minor_impl scan_all scan_handles evacuate_slot evacuate_slots scan_dirty_cards
    visit_dirty_card remember_owner clear_owners drain finalize_dead finalize_dead_nursery
    Worklist.push Worklist.pop set_slot object_slots Barrier.visit_dirty_cards Snapshots.visit_dirty
    Snapshots.dirty_count Snapshots.snapshot Heap.reset_young Heap.record_old_alloc promote
    in_nursery find_forward copy_out add_old_node copy_object set_header Barrier.register_owner
    set_init CardTable.init Registration.register_owner Registration.card_count_for
    Registration.grow find_entry find_from effective_granularity Bitmap.init Bitmap.resize
run_minor = refl

run_register : (Barrier.register_owner true true (some (set_init 256)) 4096 600).1 ≡ some one_old
unfolding Barrier.register_owner set_init CardTable.init Registration.register_owner
    Registration.card_count_for Registration.grow find_entry find_from effective_granularity
    Bitmap.init Bitmap.resize
run_register = refl

pub one_old-IsValid : IsValid one_old
unfolding sum_of set_init CardTable.init
one_old-IsValid = Reach-IsValid 256 (omega arith) (
    next start
      (register true true 4096 600 one_old (omega arith) (omega arith) (omega arith) run_register))

first_to : (promote roomy (start_minor two_young small_nursery) 1000).0 ≡ 8192
unfolding promote in_nursery find_forward copy_out add_old_node copy_object set_header
    Barrier.register_owner set_init CardTable.init Registration.register_owner
    Registration.card_count_for Registration.grow find_entry find_from effective_granularity
    Bitmap.init Bitmap.resize
first_to = refl

first_moved : (promote roomy (start_minor two_young small_nursery) 1000).0 ≢ 1000
first_moved = rw first_to (omega arith)

promote-promote_example :
    promote roomy (promote roomy (start_minor two_young small_nursery) 1000).1 1000
    ≡ promote roomy (start_minor two_young small_nursery) 1000
promote-promote_example =
    promote-promote roomy (start_minor two_young small_nursery) 1000 first_moved

write_barrier-visit_example :
    Remembered two_young small_nursery 4096 4400 0 1000 refl
      (write_barrier two_young 4096 4400 0 1000).barriers
unfolding find_from in_nursery
write_barrier-visit_example =
    write_barrier-visit two_young small_nursery 4096 4400 0 1000 refl old_entry one_old-IsValid refl
      (omega arith) (omega arith) (omega arith) (omega arith) refl refl

-- The two objects fill the used part.
pub two_laid : WholeObjects two_young.memory.header 1048 1000
two_laid =
    object linked_header refl (omega arith) (omega arith)
      (object linked_header refl (omega arith) (omega arith) finished)

roomy_apart :
    (space used : ℕ)
    → space + used ≤ 8192
    → (n : ℕ) (q : Ptr) → space ≤ q
    → q < space + used
    → (roomy n).copy ≢ q
roomy_apart space used below n q lo hi = omega (arith, below, hi)

collect_minor-Ends_example :
    Ends (Emptied small_nursery) (collect_minor_impl roomy always true two_young)
collect_minor-Ends_example =
    collect_minor-Ends roomy always true two_young small_nursery refl (omega arith) (omega arith)
      two_laid (roomy_apart 1000 48 (omega arith))

alloc-Bumped_example :
    Ends
      (Bumped two_young small_nursery linked 24)
      (alloc roomy always true (roomy 0) 0 two_young (some linked) 24 0)
unfolding aligned
alloc-Bumped_example =
    alloc-Bumped roomy always true (roomy 0) 0 two_young small_nursery linked 24 0 refl
      (omega arith) (omega arith) (omega arith) refl (omega arith) (omega arith)

-- 72 of the 96 bytes are in use.
abbrev full_nursery : GenCopyState
full_nursery = record small_nursery { nursery_used = 72 }

abbrev three_young : Runtime GenCopyState
three_young = record two_young {
  algo_state = some full_nursery;
  memory = record (two_young.memory) {
    header = λ p. if p == 1048 then some linked_header else two_young.memory.header p;
  };
}

three_laid : WholeObjects three_young.memory.header 1072 1000
three_laid = object linked_header refl (omega arith) (omega arith) (
    object linked_header refl (omega arith) (omega arith)
      (object linked_header refl (omega arith) (omega arith) finished))

alloc-Served_example :
    Ends
      (Served full_nursery linked 32)
      (alloc roomy always true (roomy 0) 0 three_young (some linked) 32 0)
unfolding aligned
alloc-Served_example =
    alloc-Served roomy always true (roomy 0) 0 linked 32 0 three_young full_nursery refl
      (omega arith) (omega arith) (omega arith) (omega arith) refl (omega arith) (omega arith)
      three_laid (roomy_apart 1000 72 (omega arith))
