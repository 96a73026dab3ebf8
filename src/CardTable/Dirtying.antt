-- ===== src/CardTable/Dirtying.antt =====
-- `gc_card_table_mark_slot` and `gc_card_table_mark_owner` (src/core/card_table.c): they keep the
-- invariant, and exactly the cards that they are for become dirty.
use xgc.Prelude.{
  ℕ, ◌≡◌, ◌≢◌, refl, Bool, false, not, ◌&&◌, ◌||◌, Option, none, some, arith, ltb, ◌==◌, Ptr, null,
  ◌⊎◌, inl, inr, Bool-cases, Option-cases,
}
use xgc.CardTable.{
  CardEntry, CardTable, Counters, find_from, find_entry, mark_card, mark_cards, mark_slot,
  mark_owner, card_index_for_slot,
}
use xgc.CardTable.Valid.{
  IsValidTable, Tracks, with_entry, with_entry-IsValidTable, with_entry-Tracks,
}
use xgc.CardTable.Marking.{Outcome, mark_card-Marked, mark_cards-Marked}
use xgc.CardTable.Cards.{
  card_dirty, entry_of_found, found-HasRoom, with_entry-card_dirty, card_index-lt,
}

-- An operation ends with a valid table and right counters, and has made the cards of `P` dirty.
abbrev pub Dirtied : CardTable → (Ptr → ℕ → Bool) → Option Counters × CardTable → Type 0
Dirtied t P r =
    (c' : Counters) × (t' : CardTable) × (r ≡ (some c', t'))
    × IsValidTable t'
    × Tracks t' c'
    × ((q : Ptr) (j : ℕ) → card_dirty t' q j ≡ (P q j || card_dirty t q j))

-- The card of a registered owner that holds the slot.
unfoldable pub slot_card : CardTable → Ptr → Ptr → Ptr → ℕ → Bool
slot_card t owner slot q j =
    not (owner == null) && not (slot == null) && owner == q && elim (find_from t.entries owner) [
      | none ↦ false
      | some e ↦ card_index_for_slot t e slot == j
    ]

-- Any card of a registered owner.
unfoldable pub owner_card : CardTable → Ptr → Ptr → ℕ → Bool
owner_card t owner q j =
    not (owner == null)
    && owner == q
    && elim (find_from t.entries owner) [ none ↦ false | some e ↦ ltb j e.card_count ]

find_entry_eq :
    (t : CardTable) (owner : Ptr) → owner ≢ null → find_entry t owner ≡ find_from t.entries owner
unfolding find_entry
find_entry_eq t owner h = ground arith

module _ (t : CardTable) (c : Counters) (v : IsValidTable t) (k : Tracks t c) (owner : Ptr) where
  untouched : (P : Ptr → ℕ → Bool) → ((q : Ptr) (j : ℕ) → P q j ≡ false) → Dirtied t P (some c, t)
  untouched P h = (c, t, refl, v, k, λ q j. ground (arith, h q j))

  after_mark :
      (P : ℕ → Bool) (Q : Ptr → ℕ → Bool) (e : CardEntry)
      (found : find_from t.entries owner ≡ some e) (m : Option Counters × CardEntry)
      → Outcome t.card_granularity P c e m
      → ((q : Ptr) (j : ℕ) → (owner == q && P j) ≡ Q q j)
      → Dirtied t Q (m.0, with_entry t owner m.1)
  after_mark P Q e found m (c', e', eq, marked) same = (
    c',
    with_entry t owner e',
    rw eq,
    with_entry-IsValidTable t c c' owner e e' v k found marked.swapped,
    with_entry-Tracks t c c' owner e e' v k found marked.swapped,
    λ q j. ground (arith, with_entry-card_dirty t c v k owner e found P c' e' marked q j, same q j),
  )

  module _ (ne : owner ≢ null) (e : CardEntry) (found : find_from t.entries owner ≡ some e) where
    mark_owner_found : mark_owner (some c) t owner ≡ (
      (mark_cards (some c) e e.card_count).0,
      with_entry t owner (mark_cards (some c) e e.card_count).1,
    )
    unfolding mark_owner
    mark_owner_found = ground (arith, find_entry_eq t owner ne)

    mark_slot_found :
        (slot : Ptr)
        → slot ≢ null
        → mark_slot (some c) t owner slot ≡ (
          (mark_card (some c) e (card_index_for_slot t e slot)).0,
          with_entry t owner (mark_card (some c) e (card_index_for_slot t e slot)).1,
        )
    unfolding mark_slot
    mark_slot_found slot h =
        let valid = entry_of_found t c v k owner e found in
        ground (arith, find_entry_eq t owner ne, valid.cards)

    mark_owner_known : Dirtied t (owner_card t owner) (mark_owner (some c) t owner)
    mark_owner_known =
        let valid = entry_of_found t c v k owner e found in
        rw mark_owner_found (
          after_mark (λ j. ltb j e.card_count) (owner_card t owner) e found
            (mark_cards (some c) e e.card_count)
            (mark_cards-Marked t.card_granularity c e e.card_count valid
              (found-HasRoom t c v k owner e found) (omega arith))
            covers)
      where
        covers : (q : Ptr) (j : ℕ) → (owner == q && ltb j e.card_count) ≡ owner_card t owner q j
        covers q j = unfold owner_card in rw found (ground arith)

    mark_slot_known :
        (slot : Ptr)
        → slot ≢ null
        → Dirtied t (slot_card t owner slot) (mark_slot (some c) t owner slot)
    mark_slot_known slot h =
        let valid = entry_of_found t c v k owner e found in
        let i = card_index_for_slot t e slot in
        rw (mark_slot_found slot h) (
          after_mark (λ j. i == j) (slot_card t owner slot) e found (mark_card (some c) e i)
            (mark_card-Marked t.card_granularity c e i valid (found-HasRoom t c v k owner e found)
              (card_index-lt t e slot valid.cards))
            covers)
      where
        covers :
            (q : Ptr) (j : ℕ)
            → (owner == q && (card_index_for_slot t e slot == j)) ≡ slot_card t owner slot q j
        covers q j = unfold slot_card in rw found (ground arith)

  module _ (off : (owner ≡ null) ⊎ (find_from t.entries owner ≡ none)) where
    mark_owner_unknown : mark_owner (some c) t owner ≡ (some c, t)
    unfolding mark_owner find_entry
    mark_owner_unknown = ground arith

    mark_slot_unknown : (slot : Ptr) → mark_slot (some c) t owner slot ≡ (some c, t)
    unfolding mark_slot find_entry
    mark_slot_unknown slot = ground arith

    owner_card_none : (q : Ptr) (j : ℕ) → owner_card t owner q j ≡ false
    unfolding owner_card
    owner_card_none q j = ground arith

    slot_card_none : (slot q : Ptr) (j : ℕ) → slot_card t owner slot q j ≡ false
    unfolding slot_card
    slot_card_none slot q j = ground arith

  owner_cases :
      ((owner ≡ null) ⊎ (find_from t.entries owner ≡ none))
      ⊎ ((owner ≢ null) × ((e : CardEntry) × (find_from t.entries owner ≡ some e)))
  owner_cases = elim (Bool-cases (owner == null)) [
    | inl z ↦ inl (inl (ground arith))
    | inr z ↦ elim (Option-cases (find_from t.entries owner)) [
      | inl n ↦ inl (inr n)
      | inr s ↦ inr (ground arith, s)
    ]
  ]

  pub mark_owner-Dirtied : Dirtied t (owner_card t owner) (mark_owner (some c) t owner)
  mark_owner-Dirtied = elim owner_cases [
    | inl off ↦ rw (mark_owner_unknown off) (untouched (owner_card t owner) (owner_card_none off))
    | inr (ne, (e, found)) ↦ mark_owner_known ne e found
  ]

  pub mark_slot-Dirtied :
      (slot : Ptr) → Dirtied t (slot_card t owner slot) (mark_slot (some c) t owner slot)
  mark_slot-Dirtied slot = elim (Bool-cases (slot == null)) [
    | inl z ↦
        rw (null_slot slot (ground arith))
          (untouched (slot_card t owner slot) (λ q j. unfold slot_card in ground arith))
    | inr z ↦ elim owner_cases [
      | inl off ↦
          rw (mark_slot_unknown off slot)
            (untouched (slot_card t owner slot) (slot_card_none off slot))
      | inr (ne, (e, found)) ↦ mark_slot_known ne e found slot (ground arith)
    ]
  ]
    where
      null_slot : (slot : Ptr) → slot ≡ null → mark_slot (some c) t owner slot ≡ (some c, t)
      null_slot slot h = unfold mark_slot in ground arith
