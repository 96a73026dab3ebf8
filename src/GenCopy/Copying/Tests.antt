-- ===== src/GenCopy/Copying/Tests.antt =====
-- A minor collection of two nursery objects that refer to each other, the first of them from a root
-- slot (src/algo/gen_copy_ms/young_copy.c).
use xgc.CardTable.Snapshots
use xgc.CardTable.Entries.{sum_of}
use xgc.GenCopy.{Forward, Answers, GenCopyState}
use xgc.GenCopy.Walking.{finished, object}
use xgc.GenCopy.Copying.{Scene, IsScene, Funded, among}
use xgc.GenCopy.Copying.Preserved.{Copied, collect_minor-Copied}
use xgc.GenCopy.Copying.Scanned.{RootsGood}
use xgc.GenCopy.Minor.{collect_minor_impl}
use xgc.GenCopy.Tests.{linked_header, small_nursery, two_young, one_old, one_old-IsValid, always}
use xgc.Object.{Memory, object_slots}
use xgc.Runtime.{Runtime}
use xgc.Prelude.{
  ℕ, ◌+◌, ◌*◌, ◌≡◌, inl, inr, refl, true, ◌||◌, List, [], ◌∷◌, arith, ◌==◌, if◌then◌else◌, Ptr,
  Ends,
}

-- The root slot 8 and a cycle: the slot of the first object, and the slot of the second.
abbrev cyclic : Memory
cyclic = record {
  header = two_young.memory.header;
  slot = λ s. if s == 8 then 1000 else if s == 1016 then 1024 else if s == 1040 then 1000 else 0;
  finalized = [];
}

abbrev pub two_linked : Runtime GenCopyState
two_linked = record two_young { memory = cyclic }

-- Each copy gets a block of 24 bytes.
abbrev pub blocks : ℕ → Answers
blocks n = record {
  copy = 8192 + 24 * n;
  forward_granted = true;
  node_granted = true;
  array_granted = true;
  bits_granted = true;
  push_granted = true;
}

abbrev pub scene : Scene
scene = record {
  memory = cyclic;
  state = small_nursery;
  barriers = one_old;
  heap = two_young.heap;
  answers = blocks;
  block = 24;
  starts = λ p. p == 1000 || p == 1024;
  offsets = λ p. 16 ∷ [];
}

scene_typed :
    (p : Ptr) (m : Memory) (q : Ptr)
    → (p == 1000 || p == 1024) ≡ true
    → m.header q ≡ cyclic.header p
    → object_slots m q ≡ (q + 16) ∷ []
unfolding object_slots
scene_typed p m q s e = ground (arith, s, e)

pub scene-IsScene : IsScene scene
unfolding among
scene-IsScene = record {
  space = omega arith;
  used = omega arith;
  laid =
      object linked_header refl (omega arith) (omega arith)
        (object linked_header refl (omega arith) (omega arith) finished);
  room = omega arith;
  inside = λ p s. (ground (arith, s), ground (arith, s), ground (arith, s));
  typed = scene_typed;
  slots_inside = λ p o s m. (ground (arith, s, m), λ y. ground (arith, s, m, y));
  apart = λ n k ne nn kn. ground (arith, ne);
  elsewhere = λ n nn. inr (omega arith);
}

pub scene-RootsGood : RootsGood scene scene-IsScene (λ n. refl) two_linked refl
unfolding Snapshots.dirty_count
scene-RootsGood = record {
  handles = tt;
  roots = (
    record {
      named = omega arith;
      outside = record { old = refl; apart = λ n nn. inl (omega arith) };
      good = λ y. refl;
    },
    tt,
  );
  cards = tt;
  worklist = record {
    room = omega arith;
    buffer = refl;
    pointer = refl;
    filled = λ i h. absurd (omega arith);
  };
  barriers = refl;
  heap = refl;
}

pub scene-Funded : Funded scene
unfolding sum_of
scene-Funded = record {
  granted = λ n. (omega arith, refl, refl, refl, refl);
  sized = λ p s. ground (arith, s);
  valid = one_old-IsValid;
  affords = record { array = omega arith; spent = omega arith; size = omega arith };
}

collect_minor-Copied_example :
    Ends
      (λ rt'.
        (fs : List Forward) × Copied scene two_linked rt'.memory.header rt'.memory.slot rt'.handles
          fs)
      (collect_minor_impl blocks always true two_linked)
collect_minor-Copied_example =
    collect_minor-Copied scene scene-IsScene (λ n. refl) two_linked refl scene-RootsGood always refl
      (omega arith) scene-Funded
