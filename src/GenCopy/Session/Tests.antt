-- ===== src/GenCopy/Session/Tests.antt =====
-- The program of `Programs` makes a minor collection (src/algo/gen_copy_ms/young_copy.c): the dirty card
-- of its old object leads to the object in the nursery.
use xgc.Barrier
use xgc.Barrier.{set_init}
use xgc.Bitmap
use xgc.CardTable
use xgc.CardTable.{find_entry, find_from, effective_granularity, account_dirty_card}
use xgc.CardTable.Entries.{sum_of}
use xgc.CardTable.Registration
use xgc.GenCopy.{GenCopyState, add_old_node}
use xgc.GenCopy.Algorithm.{global_init, alloc, alloc_young, wiped, alloc_old, aligned}
use xgc.Runtime.Allocation.{alloc_typed}
use xgc.Runtime.Handles.{handle_acquire}
use xgc.GenCopy.Session.{Collects, Reach, next, minor}
use xgc.GenCopy.Session.Keeping.{Sound}
use xgc.GenCopy.Session.Sound.{Checked, Reach-Checked}
use xgc.GenCopy.Table.{CallAnswers, vtable}
use xgc.GenCopy.Tests.{linked}
use xgc.Heap
use xgc.MarkSweep.{find_node}
use xgc.MarkSweep.Nodes.{known}
use xgc.Object.{Memory, set_header, calloc_object}
use xgc.Runtime.{Runtime}
use xgc.Runtime.Config.{apply_default_config}
use xgc.Runtime.Creation.{initial_runtime}
use xgc.Runtime.References.{store_ref}
use xgc.Runtime.Allocation.{filled}
use xgc.Runtime.Flags.{update_header}
use xgc.GenCopy.{Answers, size_at, in_nursery}
use xgc.GenCopy.Algorithm.{write_barrier}
use xgc.GenCopy.Copying.{young, Scene, IsScene, Funded, OldStart, among}
use xgc.GenCopy.Copying.Scanned.{RootsGood}
use xgc.GenCopy.Copying.Tests.{blocks}
use xgc.GenCopy.Table.{pin}
use xgc.GenCopy.Session.Collecting.{minor-outcome}
use xgc.Runtime.Collection.{collect_minor, count_minor}
use mathlib.Core.Option
use xgc.CardTable.{mark_card, card_index_for_slot}
use xgc.CardTable.Snapshots
use xgc.Object.{Header, set_slot, object_slots, trace_object_slots_in_range, traced_size}
use xgc.Prelude.{ℕ, ◌+◌, ◌*◌, ◌<◌, ◌==◌, sym, ap, subst, ◌∙◌}
use xgc.Prelude.{◌≡◌, inl, inr, refl, true, Option, none, some, [], ◌∷◌, Ptr, arith}
use xgc.GenCopy.Session.Programs.{
  program_answers, nothing, program_start, held, held_state, created_eq, held-Reach, held-IsSound,
  held_attached,
}

-- The object in the nursery.
abbrev young_object : Ptr
young_object = 16777216

abbrev young_header : Header
young_header = record { desc = some linked; size = 24; flags = 2; kind = 1 }

held_header : held.memory.header young_object ≡ some young_header
unfolding alloc_typed alloc alloc_young wiped alloc_old add_old_node aligned global_init
    initial_runtime set_header calloc_object update_header filled Barrier.register_owner set_init
    CardTable.init Registration.register_owner Registration.card_count_for Registration.grow
    find_entry find_from effective_granularity Bitmap.init Bitmap.resize apply_default_config
    Heap.init Heap.set_young_space Heap.record_old_alloc Heap.record_young_alloc handle_acquire pin
    store_ref set_slot write_barrier in_nursery Barrier.mark_slot_dirty CardTable.mark_slot
    mark_card card_index_for_slot account_dirty_card Bitmap.set Bitmap.test sum_of
    Snapshots.dirty_count Snapshots.snapshot trace_object_slots_in_range traced_size among
held_header = refl

-- Each copy gets a block of 24 bytes behind the nursery.
abbrev far_blocks : ℕ → Answers
far_blocks n = record (blocks n) { copy = 33554432 + 24 * n }

abbrev collecting_answers : CallAnswers
collecting_answers = record program_answers { promotions = far_blocks }

abbrev held_scene : Scene
held_scene = record {
  memory = held.memory;
  state = held_state;
  barriers = held.barriers;
  heap = held.heap;
  answers = far_blocks;
  block = 24;
  starts = λ p. p == young_object;
  offsets = λ p. 16 ∷ [];
}

only : (P : Ptr → Type 0) → P young_object → (p : Ptr) → (p == young_object) ≡ true → P p
only P h p s = subst P {x = young_object} {y = p} (ground (arith, s)) h

held_typed :
    (m : Memory) (q : Ptr)
    → m.header q ≡ held.memory.header young_object
    → object_slots m q ≡ (q + 16) ∷ []
unfolding object_slots
held_typed m q e = rw (e ∙ held_header, object_slots) refl

held_size : size_at held.memory young_object ≡ 24
held_size = ap (λ (x : Option Header). elim x [ none ↦ 0 | some h ↦ h.size ]) held_header

held_slot : held.memory.slot (young_object + 16) ≡ 0
unfolding alloc_typed alloc alloc_young wiped alloc_old add_old_node aligned global_init
    initial_runtime set_header calloc_object update_header filled Barrier.register_owner set_init
    CardTable.init Registration.register_owner Registration.card_count_for Registration.grow
    find_entry find_from effective_granularity Bitmap.init Bitmap.resize apply_default_config
    Heap.init Heap.set_young_space Heap.record_old_alloc Heap.record_young_alloc handle_acquire pin
    store_ref set_slot write_barrier in_nursery Barrier.mark_slot_dirty CardTable.mark_slot
    mark_card card_index_for_slot account_dirty_card Bitmap.set Bitmap.test sum_of
    Snapshots.dirty_count Snapshots.snapshot trace_object_slots_in_range traced_size among
held_slot = refl

held_slots_inside :
    (o : ℕ)
    → among o (16 ∷ []) ≡ true
    → (o < size_at held.memory young_object)
      × (young held_scene (held.memory.slot (young_object + o)) ≡ true
          → (held.memory.slot (young_object + o) == young_object) ≡ true)
held_slots_inside o a =
    subst
      (λ (o : ℕ).
        (o < size_at held.memory young_object)
        × (young held_scene (held.memory.slot (young_object + o)) ≡ true
            → (held.memory.slot (young_object + o) == young_object) ≡ true))
      {x = 16} {y = o} (unfold among in ground (arith, a))
      (omega (arith, held_size), λ y. ground (arith, y, held_slot))

held_scene-IsScene : IsScene held_scene
held_scene-IsScene = record {
  space = omega arith;
  used = omega arith;
  laid = held-IsSound.laid;
  room = omega arith;
  inside = only _ (refl, omega (arith, held_size), omega (arith, held_size));
  typed = λ p m q s.
      only (λ p. m.header q ≡ held.memory.header p → object_slots m q ≡ (q + 16) ∷ [])
        (held_typed m q) p s;
  slots_inside = λ p o s a.
      only
        (λ (p : Ptr).
          (o < size_at held.memory p)
          × (young held_scene (held.memory.slot (p + o)) ≡ true
              → (held.memory.slot (p + o) == young_object) ≡ true))
        (held_slots_inside o a) p s;
  apart = λ n k ne nn kn. ground (arith, ne);
  elsewhere = λ n nn. inr (omega arith);
}

held_scene-Funded : Funded held_scene
unfolding alloc_typed alloc alloc_young wiped alloc_old add_old_node aligned global_init
    initial_runtime set_header calloc_object update_header filled Barrier.register_owner set_init
    CardTable.init Registration.register_owner Registration.card_count_for Registration.grow
    find_entry find_from effective_granularity Bitmap.init Bitmap.resize apply_default_config
    Heap.init Heap.set_young_space Heap.record_old_alloc Heap.record_young_alloc handle_acquire pin
    store_ref set_slot write_barrier in_nursery Barrier.mark_slot_dirty CardTable.mark_slot
    mark_card card_index_for_slot account_dirty_card Bitmap.set Bitmap.test sum_of
    Snapshots.dirty_count Snapshots.snapshot trace_object_slots_in_range traced_size among find_node
    known CardTable.put_entry
held_scene-Funded = record {
  granted = λ n. (omega arith, refl, refl, refl, refl);
  sized = only _ (omega (arith, held_size));
  valid = held-IsSound.old.barriers;
  affords = record { array = omega arith; spent = omega arith; size = omega arith };
}

held_scene-OldStart : OldStart held_scene
unfolding alloc_typed alloc alloc_young wiped alloc_old add_old_node aligned global_init
    initial_runtime set_header calloc_object update_header filled Barrier.register_owner set_init
    CardTable.init Registration.register_owner Registration.card_count_for Registration.grow
    find_entry find_from effective_granularity Bitmap.init Bitmap.resize apply_default_config
    Heap.init Heap.set_young_space Heap.record_old_alloc Heap.record_young_alloc handle_acquire pin
    store_ref set_slot write_barrier in_nursery Barrier.mark_slot_dirty CardTable.mark_slot
    mark_card card_index_for_slot account_dirty_card Bitmap.set Bitmap.test sum_of
    Snapshots.dirty_count Snapshots.snapshot trace_object_slots_in_range traced_size among find_node
    known CardTable.put_entry
held_scene-OldStart = record {
  agrees = held-IsSound.old.agrees;
  fresh = λ n. ground arith;
  outside = held-IsSound.outside;
  count_fits = omega arith;
  bytes_fit = omega arith;
}

held_scene-RootsGood : RootsGood held_scene held_scene-IsScene (λ n. refl) held refl
unfolding alloc_typed alloc alloc_young wiped alloc_old add_old_node aligned global_init
    initial_runtime set_header calloc_object update_header filled Barrier.register_owner set_init
    CardTable.init Registration.register_owner Registration.card_count_for Registration.grow
    find_entry find_from effective_granularity Bitmap.init Bitmap.resize apply_default_config
    Heap.init Heap.set_young_space Heap.record_old_alloc Heap.record_young_alloc handle_acquire pin
    store_ref set_slot write_barrier in_nursery Barrier.mark_slot_dirty CardTable.mark_slot
    mark_card card_index_for_slot account_dirty_card Bitmap.set Bitmap.test sum_of
    Snapshots.dirty_count Snapshots.snapshot trace_object_slots_in_range traced_size among find_node
    known CardTable.put_entry
held_scene-RootsGood = record {
  handles = (λ y. ground (arith, y), tt);
  roots = (
    record {
      named = omega arith;
      outside = record { old = refl; apart = λ n nn. inl (omega arith) };
      good = λ y. ground (arith, y);
    },
    tt,
  );
  cards = (
    record {
      outside = record { old = refl; apart = λ n nn. inl (omega arith) };
      slots = (
        record {
          named = omega arith;
          outside = record { old = refl; apart = λ n nn. inl (omega arith) };
          good = λ y. refl;
        },
        tt,
      );
    },
    tt,
  );
  worklist = record {
    room = omega arith;
    buffer = refl;
    pointer = refl;
    filled = λ i h. absurd (omega arith);
  };
  barriers = refl;
  heap = refl;
}

held-Collects : Collects collecting_answers held_scene held
held-Collects = record {
  scene = held_scene-IsScene;
  granted = λ n. refl;
  same = refl;
  good = held_scene-RootsGood;
  funded = held_scene-Funded;
  start = held_scene-OldStart;
  attached = held_attached;
  used = omega arith;
  promotions = refl;
  snapshot = refl;
}

abbrev result : Runtime GenCopyState → Option (Runtime GenCopyState) → Runtime GenCopyState
result rt none = rt
result rt (some rt') = rt'

result_eq :
    (d x : Runtime GenCopyState) (r : Option (Runtime GenCopyState))
    → r ≡ some x
    → r ≡ some (result d r)
result_eq d x r e = e ∙ sym (ap (λ o. some (result d o)) e)

-- After the minor collection, to which the dirty card of the old object is a root.
abbrev collected : Runtime GenCopyState
collected = result held (collect_minor (vtable collecting_answers) held)

collected_eq : collect_minor (vtable collecting_answers) held ≡ some collected
collected_eq =
    let (rt1, eq, m) =
      minor-outcome collecting_answers held_scene held held-Collects held_state held-IsSound in
    result_eq held (count_minor rt1) (collect_minor (vtable collecting_answers) held)
      (unfold collect_minor in ap (Option.map count_minor) eq)

collected-Reach : Reach program_start collected
collected-Reach =
    next held-Reach (minor collecting_answers held_scene collected held-Collects collected_eq)

Reach-Checked_example : Checked collected × Sound collected
unfolding apply_default_config
Reach-Checked_example =
    Reach-Checked program_answers none (some (8 ∷ [])) nothing (vtable program_answers)
      program_start collected refl (omega arith) (omega arith) (omega arith) created_eq
      collected-Reach
