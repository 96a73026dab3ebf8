-- ===== src/GenCopy/Session/Calls.antt =====
-- A store keeps the runtime sound (src/core/runtime.c with src/algo/gen_copy_ms/young_copy.c).
use xgc.Barrier
use xgc.Barrier.{BarrierSet, counters_of, written, set_check_invariants}
use xgc.Barrier.Valid
use xgc.Barrier.Valid.{Holds, Holds-map, registered, mark_slot_dirty_lem}
use xgc.CardTable
use xgc.CardTable.{Counters, CardTable}
use xgc.CardTable.Growing.{is_registered}
use xgc.CardTable.Registered.{mark_slot-is_registered}
use xgc.GenCopy.{GenCopyState, in_nursery, barriers_or}
use xgc.GenCopy.Algorithm.{write_barrier}
use xgc.GenCopy.Copying.Clearing.{written_table, held}
use xgc.GenCopy.Session.{IsSound}
use xgc.GenCopy.Session.Keeping.{Sound}
use xgc.GenCopy.Table.{CallAnswers, vtable}
use xgc.Object.{set_slot}
use xgc.Runtime.{Runtime}
use xgc.Runtime.References.{store_ref}
use xgc.Prelude.{◌≡◌, ap, ◌∙◌, some, Ptr, null, ◌==◌, ◌||◌, Bool-cases, inl, inr}

-- The write barrier.
module _ (b : BarrierSet) (v : Barrier.Valid.IsValid b) (owner slot : Ptr) where
  abbrev marked : BarrierSet
  marked = barriers_or (Barrier.mark_slot_dirty (some b) owner slot) b

  marked-IsValid : Barrier.Valid.IsValid marked
  marked-IsValid = held b Barrier.Valid.IsValid (Barrier.mark_slot_dirty (some b) owner slot) (
      Holds-map _ Barrier.Valid.IsValid (Barrier.mark_slot_dirty (some b) owner slot)
        (mark_slot_dirty_lem b v owner slot) (λ x h. h.0))

  marked-registered : (q : Ptr) → registered marked q ≡ registered b q
  unfolding Barrier.mark_slot_dirty
  marked-registered q =
      ap (λ t. is_registered t q)
        (written_table b (CardTable.mark_slot (some (counters_of b)) b.old_to_young owner slot))
      ∙ mark_slot-is_registered b.old_to_young (some (counters_of b)) owner q slot

module _ (rt : Runtime GenCopyState) (state : GenCopyState) (s : IsSound rt state) where
  with_barriers-IsSound :
      (b : BarrierSet)
      → Barrier.Valid.IsValid b
      → ((q : Ptr) → registered b q ≡ registered rt.barriers q)
      → IsSound (record rt { barriers = b }) state
  with_barriers-IsSound b v same = record {
    old = record {
      attached = s.old.attached;
      worklist = record { size = s.old.worklist.size; pointer = s.old.worklist.pointer };
      barriers = v;
      agrees = record {
        distinct = s.old.agrees.distinct;
        white = s.old.agrees.white;
        tracked = λ q. same q ∙ s.old.agrees.tracked q;
        count = s.old.agrees.count;
        bytes = s.old.agrees.bytes;
      };
    };
    space = s.space;
    base = s.base;
    capacity = s.capacity;
    used = s.used;
    room = s.room;
    fits = s.fits;
    outside = s.outside;
    laid = s.laid;
  }

  with_slot-IsSound :
      (slot value : Ptr) → IsSound (record rt { memory = set_slot rt.memory slot value }) state
  unfolding set_slot
  with_slot-IsSound slot value = record {
    old = record {
      attached = s.old.attached;
      worklist = record { size = s.old.worklist.size; pointer = s.old.worklist.pointer };
      barriers = s.old.barriers;
      agrees = s.old.agrees;
    };
    space = s.space;
    base = s.base;
    capacity = s.capacity;
    used = s.used;
    room = s.room;
    fits = s.fits;
    outside = s.outside;
    laid = s.laid;
  }

  write_barrier-Sound :
      (owner slot old_value new_value : Ptr)
      → Sound (write_barrier rt owner slot old_value new_value)
  unfolding write_barrier
  write_barrier-Sound owner slot old_value new_value =
      elim (Bool-cases (owner == null || (slot == null || new_value == null))) [
        | inl z ↦ rw (z, write_barrier) (state, s)
        | inr z ↦ elim (Bool-cases (in_nursery state owner)) [
          | inl h ↦ rw (z, s.old.attached, h, write_barrier) (state, s)
          | inr h ↦ elim (Bool-cases (in_nursery state new_value)) [
            | inl k ↦
                rw (z, s.old.attached, h, k, write_barrier)
                  (
                    state,
                    with_barriers-IsSound (marked rt.barriers s.old.barriers owner slot)
                        (marked-IsValid rt.barriers s.old.barriers owner slot)
                        (marked-registered rt.barriers s.old.barriers owner slot),
                  )
            | inr k ↦ rw (z, s.old.attached, h, k, write_barrier) (state, s)
          ]
        ]
      ]

pub store-Sound :
    (rt : Runtime GenCopyState)
    → Sound rt
    → (a : CallAnswers) (owner slot new_value : Ptr)
    → Sound (store_ref (vtable a) rt owner slot new_value)
unfolding store_ref
store-Sound rt (state, s) a owner slot new_value = elim (Bool-cases (slot == null)) [
  | inl z ↦ rw (z, store_ref) (state, s)
  | inr z ↦
      rw (z, store_ref)
        (write_barrier-Sound (record rt { memory = set_slot rt.memory slot new_value }) state
          (with_slot-IsSound rt state s slot new_value) owner slot (rt.memory.slot slot) new_value)
]
