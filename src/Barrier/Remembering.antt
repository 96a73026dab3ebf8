-- ===== src/Barrier/Remembering.antt =====
-- The remembered set as the collector uses it (src/core/barrier.c): the slot that a write barrier
-- marks lies in a card that the next visit reports, and an owner is dirty when one of its cards is.
use xgc.Bitmap
use xgc.Bitmap.Count.{count_set-some}
use xgc.CardTable.{CardEntry, find_from, find_entry, card_index_for_slot, owner_is_dirty}
use xgc.CardTable.Entries.{base_of_found}
use xgc.CardTable.Cards.{card_dirty, card_index_bounds, entry_of_found}
use xgc.CardTable.Clearing.{found-ne-null, clean_test}
use xgc.CardTable.Dirtying.{slot_card}
use xgc.CardTable.Visiting.{count_calls, visit_dirty_lem}
use xgc.Barrier.{BarrierSet, counters_of, mark_slot_dirty, is_owner_dirty, visit_dirty_cards}
use xgc.Barrier.Valid.{IsValid, Holds, Holds-map, dirty, mark_slot_dirty_lem}
use xgc.Prelude.{
  ℕ, ◌+◌, ◌-◌, ◌*◌, ◌<◌, ◌≤◌, ◌≡◌, ◌≢◌, ◌∙◌, Bool, true, false, not, none, some, arith, ◌==◌,
  if◌then◌else◌, Ptr, null, subst, ◌||◌, ◌↔◌, inl, inr, Option-cases,
}

-- In a valid barrier set, with memory for the snapshot each dirty card is visited exactly once and
-- no clean one is; without memory nothing is visited.
pub visit_dirty_cards_lem :
    (b : BarrierSet) (q : Ptr) (j : ℕ)
    → IsValid b
    → (visit_dirty_cards true (some b) (count_calls q j) 0 ≡ (if dirty b q j then 1 else 0))
      × (visit_dirty_cards false (some b) (count_calls q j) 0 ≡ 0)
unfolding visit_dirty_cards
visit_dirty_cards_lem b q j v = visit_dirty_lem b.old_to_young q j v.table

slot_card_self :
    (b : BarrierSet) (owner slot : Ptr) (e : CardEntry)
    → find_from b.old_to_young.entries owner ≡ some e
    → owner ≢ null
    → slot ≢ null
    → slot_card b.old_to_young owner slot owner (card_index_for_slot b.old_to_young e slot) ≡ true
unfolding slot_card
slot_card_self b owner slot e found ne ns = ground (arith, found)

-- In a valid barrier set, after the barrier on a slot inside a registered object, the next visit
-- whose snapshot can be allocated reports exactly once a card of that object whose byte range
-- holds the slot.
pub mark_slot-visit :
    (b : BarrierSet) (owner slot : Ptr) (e : CardEntry)
    → IsValid b
    → find_from b.old_to_young.entries owner ≡ some e
    → owner ≤ slot
    → slot < owner + e.owner_size
    → Holds
        (λ b'.
          (j : ℕ) × (j * b.old_to_young.card_granularity ≤ slot - owner)
          × (slot - owner < j * b.old_to_young.card_granularity + b.old_to_young.card_granularity)
          × (visit_dirty_cards true (some b') (count_calls owner j) 0 ≡ 1))
        (mark_slot_dirty (some b) owner slot)
mark_slot-visit b owner slot e v found lo hi =
    let t = b.old_to_young in
    let valid = entry_of_found t (counters_of b) v.table v.tracks owner e found in
    let ne = found-ne-null t (counters_of b) v.table v.tracks owner e found in
    let base = base_of_found t.entries owner e found in
    let (_, low, high) =
      card_index_bounds t e slot v.table.granular valid (omega arith) (omega arith) in
    let j = card_index_for_slot t e slot in
    let self = slot_card_self b owner slot e found ne (omega arith) in
    Holds-map _ _ (mark_slot_dirty (some b) owner slot) (mark_slot_dirty_lem b v owner slot)
      λ b' (v', cards). (
        j,
        subst (λ n. j * t.card_granularity ≤ slot - n) base low,
        subst (λ n. slot - n < j * t.card_granularity + t.card_granularity) base high,
        (visit_dirty_cards_lem b' owner j v').0
            ∙ is_one (dirty b' owner j) (cards owner j ∙ or_true _ _ self),
      )
  where
    is_one : (x : Bool) → x ≡ true → ◌≡◌ {A = ℕ} (if x then 1 else 0) 1
    is_one x h = ground arith

    or_true : (x y : Bool) → x ≡ true → (x || y) ≡ true
    or_true x y h = ground arith

module _ (b : BarrierSet) (owner : Ptr) (v : IsValid b) where
  unknown_clean :
      find_from b.old_to_young.entries owner ≡ none
      → (is_owner_dirty (some b) owner ≡ false) × ((j : ℕ) → dirty b owner j ≡ false)
  unfolding is_owner_dirty owner_is_dirty find_entry card_dirty
  unknown_clean off = (ground (arith, off), λ j. ground (arith, off))

  module _ (e : CardEntry) (found : find_from b.old_to_young.entries owner ≡ some e) where
    known_dirty :
        (is_owner_dirty (some b) owner ≡ not (e.dirty_card_count == 0))
        × ((j : ℕ) → dirty b owner j ≡ Bitmap.test e.dirty_map j)
    unfolding is_owner_dirty owner_is_dirty find_entry card_dirty
    known_dirty =
        let ne = found-ne-null b.old_to_young (counters_of b) v.table v.tracks owner e found in
        (ground (arith, found), λ j. ground (arith, found))

    dirty_some : is_owner_dirty (some b) owner ≡ true → (j : ℕ) × (dirty b owner j ≡ true)
    dirty_some h =
        let valid = entry_of_found b.old_to_young (counters_of b) v.table v.tracks owner e found in
        let (j, lt, set) =
          count_set-some e.dirty_map e.card_count (ground (arith, known_dirty.0, valid.dirty)) in
        (j, known_dirty.1 j ∙ set)

    some_dirty : (j : ℕ) → dirty b owner j ≡ true → is_owner_dirty (some b) owner ≡ true
    some_dirty j h =
        let valid = entry_of_found b.old_to_young (counters_of b) v.table v.tracks owner e found in
        ground (
          arith,
          known_dirty.0,
          known_dirty.1 j,
          clean_test b.old_to_young.card_granularity e j valid,
        )

-- In a valid barrier set an owner is reported dirty exactly when one of its cards is.
pub is_owner_dirty_iff :
    (b : BarrierSet) (owner : Ptr)
    → IsValid b
    → (is_owner_dirty (some b) owner ≡ true) ↔ ((j : ℕ) × (dirty b owner j ≡ true))
is_owner_dirty_iff b owner v = elim (Option-cases (find_from b.old_to_young.entries owner)) [
  | inl off ↦
      let (clean, none_dirty) = unknown_clean b owner v off in
      (λ h. absurd (contradiction clean h), λ (j, h). absurd (contradiction (none_dirty j) h))
  | inr (e, found) ↦ (dirty_some b owner v e found, λ (j, h). some_dirty b owner v e found j h)
]
  where
    contradiction : {x : Bool} → x ≡ false → x ≡ true → ⊥
    contradiction h k = ground arith
