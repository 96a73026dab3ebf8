-- ===== src/CardTable/Registered.antt =====
-- Marking and clearing forget no owner (src/core/card_table.c).
use xgc.CardTable.{
  CardEntry, CardTable, Counters, find_from, find_entry, put_entry, mark_card, mark_slot,
  clear_owner, account_dirty_card, card_index_for_slot,
}
use xgc.CardTable.Entries.{find_from-put_entry, base_of_found}
use xgc.CardTable.Growing.{is_registered}
use xgc.Prelude.{
  ℕ, ◌≡◌, refl, ◌∙◌, ap, Option, some, none, arith, ◌==◌, ◌||◌, true, false, if◌then◌else◌, Ptr,
  null, inl, inr, Option-cases, Bool-cases,
}

module _ (t : CardTable) (owner : Ptr) (e : CardEntry) (found : find_from t.entries owner ≡ some e)
    (q : Ptr) where
  -- A write through a found entry.
  put_entry-is_registered :
      (new : CardEntry)
      → new.owner_base ≡ owner
      → is_registered (record t { entries = put_entry t.entries owner new }) q ≡ is_registered t q
  unfolding is_registered
  put_entry-is_registered new b =
      ground (arith, found, find_from-put_entry owner new b t.entries q, same_find)
    where
      same_find : owner ≡ q → find_from t.entries owner ≡ find_from t.entries q
      same_find h = ap (find_from t.entries) h

mark_card_base :
    (c : Option Counters) (e : CardEntry) (j : ℕ) → (mark_card c e j).1.owner_base ≡ e.owner_base
unfolding mark_card account_dirty_card
mark_card_base c e j = ground arith

module _ (t : CardTable) (c : Option Counters) (owner q : Ptr) where
  pub clear_owner-is_registered : is_registered (clear_owner c t owner).1 q ≡ is_registered t q
  unfolding clear_owner find_entry
  clear_owner-is_registered = elim (Bool-cases (owner == null)) [
    | inl z ↦ rw (z, clear_owner) refl
    | inr z ↦ elim (Option-cases (find_from t.entries owner)) [
      | inl off ↦ rw (z, off, clear_owner) refl
      | inr (e, found) ↦ elim (Bool-cases (e.dirty_card_count == 0)) [
        | inl d ↦ rw (z, found, d, clear_owner) refl
        | inr d ↦
            rw (z, found, d, clear_owner)
              (put_entry-is_registered t owner e found q _ (base_of_found t.entries owner e found))
      ]
    ]
  ]

  module _ (slot : Ptr) where
    mark_slot-null : (owner == null || slot == null) ≡ true → (mark_slot c t owner slot).1 ≡ t
    unfolding mark_slot find_entry
    mark_slot-null z = ground (arith, z)

    mark_slot_unknown : find_from t.entries owner ≡ none → (mark_slot c t owner slot).1 ≡ t
    unfolding mark_slot find_entry
    mark_slot_unknown off = ground (arith, off)

    mark_slot_found :
        (e : CardEntry)
        → find_from t.entries owner ≡ some e
        → (owner == null || slot == null) ≡ false
        → (mark_slot c t owner slot).1 ≡ (
            if e.card_count == 0 then t else record t {
              entries = put_entry t.entries owner (mark_card c e (card_index_for_slot t e slot)).1;
            })
    unfolding mark_slot find_entry
    mark_slot_found e found z = ground (arith, found, z)

    pub mark_slot-is_registered : is_registered (mark_slot c t owner slot).1 q ≡ is_registered t q
    mark_slot-is_registered = elim (Bool-cases (owner == null || slot == null)) [
      | inl z ↦ ap (λ x. is_registered x q) (mark_slot-null z)
      | inr z ↦ elim (Option-cases (find_from t.entries owner)) [
        | inl off ↦ ap (λ x. is_registered x q) (mark_slot_unknown off)
        | inr (e, found) ↦
            let same =
              put_entry-is_registered t owner e found q
                (mark_card c e (card_index_for_slot t e slot)).1
                (mark_card_base c e (card_index_for_slot t e slot)
                  ∙ base_of_found t.entries owner e found) in
            ap (λ x. is_registered x q) (mark_slot_found e found z) ∙ ground (arith, same)
      ]
    ]
