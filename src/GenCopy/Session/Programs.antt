-- ===== src/GenCopy/Session/Programs.antt =====
-- A program that creates a runtime with the algorithm of src/algo/gen_copy_ms/young_copy.c, allocates a
-- pinned object of 600 bytes and a small one in the nursery, stores a reference from the first to the
-- second and acquires a handle on the first.
use xgc.Barrier
use xgc.Barrier.{set_init}
use xgc.Bitmap
use xgc.CardTable
use xgc.CardTable.{find_entry, find_from, effective_granularity, account_dirty_card}
use xgc.CardTable.Entries.{sum_of}
use xgc.CardTable.Registration
use xgc.GenCopy.{GenCopyState, add_old_node}
use xgc.GenCopy.Algorithm.{global_init, alloc, alloc_young, wiped, alloc_old, aligned}
use xgc.Runtime.Allocation.{alloc_typed}
use xgc.Runtime.Handles.{handle_acquire}
use xgc.GenCopy.Session.{Admits, Reach, IsSound, start, next, allocate, store, acquire}
use xgc.GenCopy.Session.Sound.{Reach-Checked}
use xgc.GenCopy.Table.{CallAnswers, vtable}
use xgc.GenCopy.Tests.{linked, roomy, always}
use xgc.Heap
use xgc.MarkSweep.{find_node}
use xgc.MarkSweep.Nodes.{known}
use xgc.Object.{Memory, set_header, calloc_object}
use xgc.Runtime.{Runtime}
use xgc.Runtime.Config.{apply_default_config}
use xgc.Runtime.Contract.{validate_contracts}
use xgc.Runtime.Creation.{create, initial_runtime, config_of}
use xgc.Runtime.References.{store_ref}
use xgc.Runtime.Allocation.{filled}
use xgc.Runtime.Flags.{update_header}
use xgc.GenCopy.{in_nursery}
use xgc.GenCopy.Algorithm.{write_barrier}
use xgc.GenCopy.Copying.{among}
use xgc.GenCopy.Table.{pin}
use xgc.CardTable.{mark_card, card_index_for_slot}
use xgc.CardTable.Snapshots
use xgc.Object.{set_slot, trace_object_slots_in_range, traced_size}
use xgc.Prelude.{sym, subst, some-injective, ◌∙◌}
use xgc.Prelude.{◌≡◌, inl, inr, refl, true, false, Option, none, some, [], ◌∷◌, Ptr, arith}

abbrev pub program_answers : CallAnswers
program_answers = record {
  state_granted = true;
  space = 16777216;
  promotions = roomy;
  owners_granted = always;
  snapshot_granted = true;
  grants = always;
  old = roomy 0;
  raw = 4096;
}

-- From here on the allocator has no memory.
abbrev later_answers : CallAnswers
later_answers = record program_answers { raw = 0 }

abbrev pub nothing : Memory
nothing = record { header = λ p. none; slot = λ s. 0; finalized = [] }

abbrev plain : Runtime GenCopyState
plain = initial_runtime none (some (8 ∷ [])) nothing

abbrev pub program_start : Runtime GenCopyState
program_start = global_init true 16777216 plain (config_of none)

abbrev program_state : GenCopyState
program_state = record {
  nursery_space = 16777216;
  nursery_capacity = 4194304;
  nursery_used = 0;
  old_objects = [];
  forwarded = [];
}

abbrev runtime_of : Option (Ptr × Runtime GenCopyState) → Runtime GenCopyState
runtime_of none = plain
runtime_of (some r) = r.1

abbrev with_old : Runtime GenCopyState
with_old = runtime_of (alloc_typed (vtable program_answers) 0 program_start (some linked) 600 1)

abbrev with_young : Runtime GenCopyState
with_young = runtime_of (alloc_typed (vtable later_answers) 0 with_old (some linked) 24 0)

abbrev stored : Runtime GenCopyState
stored = store_ref (vtable program_answers) with_young 4096 4112 16777216

abbrev pub held : Runtime GenCopyState
held = (handle_acquire (vtable program_answers) 64 stored 4096 0).1

pub created_eq :
    create true true none none (vtable program_answers) (some (8 ∷ [])) nothing
    ≡ some (vtable program_answers, program_start)
unfolding create initial_runtime validate_contracts global_init
created_eq = refl

with_old_eq :
    alloc_typed (vtable program_answers) 0 program_start (some linked) 600 1 ≡ some (4096, with_old)
unfolding alloc_typed alloc alloc_old add_old_node aligned global_init initial_runtime set_header
    calloc_object Barrier.register_owner set_init CardTable.init Registration.register_owner
    Registration.card_count_for Registration.grow find_entry find_from effective_granularity
    Bitmap.init Bitmap.resize apply_default_config Heap.init Heap.set_young_space
with_old_eq = refl

abbrev old_state : GenCopyState
old_state = record program_state { old_objects = record { obj = 4096; marked = false } ∷ [] }

with_old_state : with_old.algo_state ≡ some old_state
unfolding alloc_typed alloc alloc_old add_old_node aligned global_init initial_runtime set_header
    calloc_object update_header filled Barrier.register_owner set_init CardTable.init
    Registration.register_owner Registration.card_count_for Registration.grow find_entry find_from
    effective_granularity Bitmap.init Bitmap.resize apply_default_config Heap.init
    Heap.set_young_space Heap.record_old_alloc
with_old_state = refl

with_young_eq :
    alloc_typed (vtable later_answers) 0 with_old (some linked) 24 0 ≡ some (16777216, with_young)
unfolding alloc_typed alloc alloc_young wiped alloc_old add_old_node aligned global_init
    initial_runtime set_header calloc_object update_header filled Barrier.register_owner set_init
    CardTable.init Registration.register_owner Registration.card_count_for Registration.grow
    find_entry find_from effective_granularity Bitmap.init Bitmap.resize apply_default_config
    Heap.init Heap.set_young_space Heap.record_old_alloc
with_young_eq = refl

program_start-Admits : Admits program_answers program_start program_state 0 600 1
unfolding aligned global_init initial_runtime known find_node sum_of set_init CardTable.init
    apply_default_config Heap.init Heap.set_young_space
program_start-Admits = record {
  unused = inr (refl, refl);
  fallback = inl refl;
  size_fits = omega arith;
  small = omega arith;
  fits = record {
    array = omega arith;
    granularity = omega arith;
    cards = omega arith;
    count = omega arith;
    bytes = omega arith;
  };
  now = inl refl;
}

with_old-Admits : Admits later_answers with_old old_state 0 24 0
unfolding alloc_typed alloc alloc_old add_old_node aligned global_init initial_runtime set_header
    calloc_object update_header filled Barrier.register_owner set_init CardTable.init
    Registration.register_owner Registration.card_count_for Registration.grow find_entry find_from
    effective_granularity Bitmap.init Bitmap.resize apply_default_config Heap.init
    Heap.set_young_space Heap.record_old_alloc sum_of
with_old-Admits = record {
  unused = inl refl;
  fallback = inl refl;
  size_fits = omega arith;
  small = omega arith;
  fits = record {
    array = omega arith;
    granularity = omega arith;
    cards = omega arith;
    count = omega arith;
    bytes = omega arith;
  };
  now = inr (inr (inl (omega arith)));
}

pub held-Reach : Reach program_start held
unfolding global_init initial_runtime apply_default_config
held-Reach =
    let first =
      allocate program_answers 0 program_state (some linked) 600 1 4096 with_old refl
        program_start-Admits with_old_eq in
    let second =
      allocate later_answers 0 old_state (some linked) 24 0 16777216 with_young with_old_state
        with_old-Admits with_young_eq in
    next (next (next (next start first) second) (store program_answers 4096 4112 16777216))
      (acquire program_answers 64 4096 0)

abbrev pub held_state : GenCopyState
held_state = record old_state { nursery_used = 24 }

pub held_attached : held.algo_state ≡ some held_state
unfolding alloc_typed alloc alloc_young wiped alloc_old add_old_node aligned global_init
    initial_runtime set_header calloc_object update_header filled Barrier.register_owner set_init
    CardTable.init Registration.register_owner Registration.card_count_for Registration.grow
    find_entry find_from effective_granularity Bitmap.init Bitmap.resize apply_default_config
    Heap.init Heap.set_young_space Heap.record_old_alloc Heap.record_young_alloc handle_acquire pin
    store_ref set_slot write_barrier in_nursery Barrier.mark_slot_dirty CardTable.mark_slot
    mark_card card_index_for_slot account_dirty_card Bitmap.set Bitmap.test sum_of
    Snapshots.dirty_count Snapshots.snapshot trace_object_slots_in_range traced_size among
held_attached = refl

pub held-IsSound : IsSound held held_state
unfolding apply_default_config
held-IsSound =
    let (state, s) =
      (Reach-Checked program_answers none (some (8 ∷ [])) nothing (vtable program_answers)
        program_start held refl (omega arith) (omega arith) (omega arith) created_eq
        held-Reach).1 in
    subst (IsSound held) (some-injective state held_state (sym s.old.attached ∙ held_attached)) s
