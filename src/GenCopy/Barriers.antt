-- ===== src/GenCopy/Barriers.antt =====
-- The write barrier of src/algo/gen_copy_ms/young_copy.c remembers every old object that comes to refer
-- to the nursery.
use xgc.Barrier.{BarrierSet, visit_dirty_cards, mark_slot_dirty}
use xgc.Barrier.Valid.{IsValid, Holds}
use xgc.Barrier.Remembering.{mark_slot-visit}
use xgc.CardTable.{CardEntry, find_from}
use xgc.CardTable.Visiting.{count_calls}
use xgc.GenCopy.{GenCopyState, in_nursery, barriers_or}
use xgc.GenCopy.Algorithm.{write_barrier}
use xgc.Runtime.{Runtime}
use xgc.Prelude.{
  ℕ, ◌+◌, ◌-◌, ◌*◌, ◌≤◌, ◌<◌, ◌≡◌, ◌≢◌, sym, subst, true, false, Option, none, some, arith, Ptr,
  null,
}

module _ (rt : Runtime GenCopyState) (state : GenCopyState) (owner slot old_value new_value : Ptr)
    (attached : rt.algo_state ≡ some state) where
  -- The next visit of the dirty cards reports, once, a card of the owner that holds the slot.
  abbrev pub Remembered : BarrierSet → Type 0
  Remembered b =
      (j : ℕ) × (j * rt.barriers.old_to_young.card_granularity ≤ slot - owner)
      × (slot - owner
          < j * rt.barriers.old_to_young.card_granularity
            + rt.barriers.old_to_young.card_granularity)
      × (visit_dirty_cards true (some b) (count_calls owner j) 0 ≡ 1)

  marked_eq :
      owner ≢ null
      → slot ≢ null
      → new_value ≢ null
      → in_nursery state owner ≡ false
      → in_nursery state new_value ≡ true
      → (write_barrier rt owner slot old_value new_value).barriers
        ≡ barriers_or (mark_slot_dirty (some rt.barriers) owner slot) rt.barriers
  unfolding write_barrier
  marked_eq n1 n2 n3 old young = ground (arith, attached)

  -- In a runtime with a valid barrier set, after the write barrier for a reference from a
  -- registered old object into the nursery, in a slot inside the object, the next visit of the
  -- dirty cards whose snapshot can be allocated reports, once, a card of that object whose byte
  -- range holds the slot.
  pub write_barrier-visit :
      (e : CardEntry)
      → IsValid rt.barriers
      → find_from rt.barriers.old_to_young.entries owner ≡ some e
      → owner ≢ null
      → new_value ≢ null
      → owner ≤ slot
      → slot < owner + e.owner_size
      → in_nursery state owner ≡ false
      → in_nursery state new_value ≡ true
      → Remembered (write_barrier rt owner slot old_value new_value).barriers
  write_barrier-visit e v found n1 n3 lo hi old young =
      subst Remembered (sym (marked_eq n1 (omega arith) n3 old young)) (
        held (mark_slot_dirty (some rt.barriers) owner slot)
          (mark_slot-visit rt.barriers owner slot e v found lo hi))
    where
      held : (o : Option BarrierSet) → Holds Remembered o → Remembered (barriers_or o rt.barriers)
      held none h = absurd h
      held (some b) h = h
