-- ===== src/CardTable/Cards.antt =====
-- The cards of the table: which are dirty, and which one holds a slot (src/core/card_table.c).
use xgc.Prelude.{
  ℕ, ◌+◌, ◌-◌, ◌*◌, ◌/◌, ◌≤◌, ◌<◌, ◌≡◌, ◌≢◌, ◌∙◌, ap, Bool, false, ◌&&◌, ◌||◌, none, some, List, [],
  ◌∷◌, arith, ◌==◌, All, Ptr,
}
use native.Mathlib.Nat.{div-lt_iff_lt-mul, div-mul-le_self, lt-div-mul-add, zero-div}
use xgc.Bitmap
use xgc.Bitmap.Count.{count_set-le}
use xgc.CardTable.{CardEntry, CardTable, Counters, find_from, card_index_for_slot}
use xgc.CardTable.Entries.{sum_of, All_of_found, base_of_found, find_from-put_entry}
use xgc.CardTable.Valid.{
  IsValidEntry, IsValidTable, Tracks, cards_of, dirty_of, with_entry, dirty-le-cards,
  flags-le-dirty,
}
use xgc.CardTable.Marking.{HasRoom, Marked}

-- The counters have room for a registered entry.
room_of_found :
    (g : ℕ) (es : List CardEntry) (p : Ptr) (e : CardEntry)
    → All (IsValidEntry g) es
    → find_from es p ≡ some e
    → sum_of dirty_of es + e.card_count ≤ sum_of cards_of es + e.dirty_card_count
unfolding find_from sum_of
room_of_found g [] p e a h = cc
room_of_found g (x ∷ es) p e a h = ground (
  arith,
  room_of_found g es p e a.1,
  dirty-le-cards g es a.1,
  a.0.dirty,
  count_set-le x.dirty_map x.card_count,
)

-- Is card `j` of the owner `q` dirty?
unfoldable pub card_dirty : CardTable → Ptr → ℕ → Bool
card_dirty t q j = elim (find_from t.entries q) [
  | none ↦ false
  | some e ↦ Bitmap.test e.dirty_map j
]

module _ (t : CardTable) (c : Counters) (v : IsValidTable t) (k : Tracks t c) (p : Ptr)
    (e : CardEntry) (found : find_from t.entries p ≡ some e) where
  pub entry_of_found : IsValidEntry t.card_granularity e
  entry_of_found =
      All_of_found (IsValidEntry t.card_granularity) t.entries p e v.entries_valid found

  pub found-HasRoom : HasRoom c e
  found-HasRoom = record {
    room = omega (
      arith,
      room_of_found t.card_granularity t.entries p e v.entries_valid found,
      k.cards,
      v.cards_fit,
    );
    order = omega (arith, flags-le-dirty t.entries, k.objects, k.cards);
  }

  pub with_entry-card_dirty :
      (P : ℕ → Bool) (c' : Counters) (e' : CardEntry)
      → Marked t.card_granularity P c e c' e'
      → (q : Ptr) (j : ℕ)
      → card_dirty (with_entry t p e') q j ≡ ((p == q && P j) || card_dirty t q j)
  unfolding card_dirty
  with_entry-card_dirty P c' e' m q j = ground (
    arith,
    find_from-put_entry p e' (m.swapped.same_base ∙ base_of_found t.entries p e found) t.entries q,
    m.tested j,
    same_find,
  )
    where
      same_find : p ≡ q → find_from t.entries p ≡ find_from t.entries q
      same_find h = ap (find_from t.entries) h

module _ (t : CardTable) (e : CardEntry) (slot : Ptr) (g : t.card_granularity ≢ 0)
    (v : IsValidEntry t.card_granularity e) (lo : e.owner_base ≤ slot)
    (hi : slot < e.owner_base + e.owner_size) where
  quotient-lt : (slot - e.owner_base) / t.card_granularity < e.card_count
  quotient-lt = (div-lt_iff_lt-mul (omega arith)).1 (omega (arith, v.covered))

  -- Inside the object neither the test against the base nor the clamp changes the quotient.
  card_index_eq : card_index_for_slot t e slot ≡ (slot - e.owner_base) / t.card_granularity
  unfolding card_index_for_slot
  card_index_eq = ground (arith, v.base, v.cards, quotient-lt, at_base)
    where
      at_base : slot ≤ e.owner_base → (slot - e.owner_base) / t.card_granularity ≡ 0
      at_base h = ap (λ n. n / t.card_granularity) (omega arith) ∙ zero-div t.card_granularity

  -- With a granularity that is not 0 and a valid entry, a slot inside the object lies in the card
  -- that its index names, and the index is in range.
  pub card_index_bounds :
      (card_index_for_slot t e slot < e.card_count)
      × (card_index_for_slot t e slot * t.card_granularity ≤ slot - e.owner_base)
      × (slot - e.owner_base
          < card_index_for_slot t e slot * t.card_granularity + t.card_granularity)
  card_index_bounds = rw card_index_eq (
    quotient-lt,
    div-mul-le_self (slot - e.owner_base) t.card_granularity,
    lt-div-mul-add (omega arith),
  )

-- Whatever the address, the index is a card of the entry.
pub card_index-lt :
    (t : CardTable) (e : CardEntry) (slot : Ptr)
    → e.card_count ≢ 0
    → card_index_for_slot t e slot < e.card_count
unfolding card_index_for_slot
card_index-lt t e slot h = ground arith
