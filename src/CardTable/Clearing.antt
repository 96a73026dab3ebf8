-- ===== src/CardTable/Clearing.antt =====
-- `gc_card_table_clear_owner` (src/core/card_table.c): it keeps the invariant and cleans exactly the
-- cards of its owner.
use xgc.Prelude.{
  ℕ, ◌+◌, ◌-◌, ◌≤◌, ◌≡◌, ◌≢◌, refl, ◌∙◌, sym, ap, false, not, ◌&&◌, Option, none, some, arith, ◌==◌,
  Ptr, null, inl, inr, Option-cases, zero_or_pos,
}
use xgc.Bitmap
use xgc.Bitmap.Valid.{test_lem}
use xgc.Bitmap.Access.{clear_all-IsValid, test-clear_all}
use xgc.Bitmap.Count.{count_set-zero, count_set-none}
use xgc.CardTable.{
  CardEntry, CardTable, Counters, find_from, find_entry, clear_owner, unaccount_dirty_owner,
}
use xgc.CardTable.Entries.{sum_of_found-le, find_from-put_entry, base_of_found}
use xgc.CardTable.Valid.{
  IsValidEntry, IsValidTable, Tracks, Swapped, with_entry, with_entry-IsValidTable,
  with_entry-Tracks, dirty_of, flag_of,
}
use xgc.CardTable.Cards.{card_dirty, entry_of_found}

-- An operation ends with a valid table and right counters, and the cards of `owner` are clean.
abbrev pub Cleaned : CardTable → Ptr → Option Counters × CardTable → Type 0
Cleaned t owner r =
    (c' : Counters) × (t' : CardTable) × (r ≡ (some c', t'))
    × IsValidTable t'
    × Tracks t' c'
    × ((q : Ptr) (j : ℕ) → card_dirty t' q j ≡ (not (owner == q) && card_dirty t q j))

-- A valid entry with no dirty card has no set bit at all.
pub clean_test :
    (g : ℕ) (e : CardEntry) (j : ℕ)
    → IsValidEntry g e
    → e.dirty_card_count ≡ 0
    → Bitmap.test e.dirty_map j ≡ false
clean_test g e j v z =
    test_lem e.dirty_map j v.map
    ∙ ground (
      arith,
      test_lem e.dirty_map j v.map,
      count_set-zero e.dirty_map e.card_count j (sym v.dirty ∙ z),
      v.count,
    )

module _ (t : CardTable) (c : Counters) (v : IsValidTable t) (k : Tracks t c) (owner : Ptr)
    (e : CardEntry) (found : find_from t.entries owner ≡ some e) where
  dirty-le : e.dirty_card_count ≤ c.dirty_cards
  dirty-le = ground (arith, sum_of_found-le dirty_of t.entries owner, k.cards, found)

  flag-le : flag_of e ≤ c.dirty_old_objects
  flag-le = ground (arith, sum_of_found-le flag_of t.entries owner, k.objects, found)

  -- The counters lose the object and its dirty cards.
  pub unaccount_lem :
      (c' : Counters) × (unaccount_dirty_owner (some c) e.dirty_card_count ≡ some c')
      × (c'.dirty_cards + e.dirty_card_count ≡ c.dirty_cards)
      × (c'.dirty_old_objects + flag_of e ≡ c.dirty_old_objects)
  unfolding unaccount_dirty_owner
  unaccount_lem = (
    record {
      dirty_old_objects = c.dirty_old_objects - flag_of e;
      dirty_cards = c.dirty_cards - e.dirty_card_count;
    },
    ground (arith, dirty-le, flag-le),
    omega (arith, dirty-le),
    omega (arith, flag-le),
  )

  abbrev pub cleared : CardEntry
  cleared = record e { dirty_card_count = 0; dirty_map = Bitmap.clear_all e.dirty_map }

  cleared-IsValidEntry : IsValidEntry t.card_granularity cleared
  cleared-IsValidEntry =
      let valid = entry_of_found t c v k owner e found in
      record {
        base = valid.base;
        sized = valid.sized;
        cards = valid.cards;
        map = clear_all-IsValid e.dirty_map valid.map;
        count = (test-clear_all e.dirty_map valid.map 0).1 ∙ valid.count;
        dirty = sym (
            count_set-none (Bitmap.clear_all e.dirty_map) e.card_count
              (λ j. (test-clear_all e.dirty_map valid.map j).0));
        covered = valid.covered;
      }

  clear_owner_found :
      owner ≢ null
      → e.dirty_card_count ≢ 0
      → clear_owner (some c) t owner
        ≡ (unaccount_dirty_owner (some c) e.dirty_card_count, with_entry t owner cleared)
  unfolding clear_owner find_entry
  clear_owner_found ne d = ground (arith, found)

  clear_owner_dirty :
      owner ≢ null → e.dirty_card_count ≢ 0 → Cleaned t owner (clear_owner (some c) t owner)
  clear_owner_dirty ne d =
      let (c', eq, moved, moved_object) = unaccount_lem in
      let valid = entry_of_found t c v k owner e found in
      let s : Swapped t.card_granularity c e c' cleared = record {
        same_base = refl;
        same_count = refl;
        valid = cleared-IsValidEntry;
        moved_cards = omega arith;
        moved_objects = ground arith;
      } in
      rw (clear_owner_found ne d, eq)
        (
          c',
          with_entry t owner cleared,
          refl,
          with_entry-IsValidTable t c c' owner e cleared v k found s,
          with_entry-Tracks t c c' owner e cleared v k found s,
          λ q j.
              unfold card_dirty in
              ground (
                arith,
                find_from-put_entry owner cleared (base_of_found t.entries owner e found) t.entries
                    q,
                (test-clear_all e.dirty_map valid.map j).0,
                found,
              ),
        )

  clear_owner_clean : e.dirty_card_count ≡ 0 → Cleaned t owner (clear_owner (some c) t owner)
  clear_owner_clean d =
      let valid = entry_of_found t c v k owner e found in
      rw same (
        c,
        t,
        refl,
        v,
        k,
        λ q j.
            unfold card_dirty in
            ground (arith, clean_test t.card_granularity e j valid d, found, same_find q),
      )
    where
      same : clear_owner (some c) t owner ≡ (some c, t)
      same = unfold clear_owner find_entry in ground (arith, found)

      same_find : (q : Ptr) → owner ≡ q → find_from t.entries owner ≡ find_from t.entries q
      same_find q h = ap (find_from t.entries) h

module _ (t : CardTable) (c : Counters) (v : IsValidTable t) (k : Tracks t c) (owner : Ptr) where
  -- No owner is registered at NULL.
  pub found-ne-null : (e : CardEntry) → find_from t.entries owner ≡ some e → owner ≢ null
  found-ne-null e found z =
      let valid = entry_of_found t c v k owner e found in
      valid.base (base_of_found t.entries owner e found ∙ z)

  clear_owner_unknown :
      find_from t.entries owner ≡ none → Cleaned t owner (clear_owner (some c) t owner)
  clear_owner_unknown off =
      rw same (c, t, refl, v, k, λ q j. unfold card_dirty in ground (arith, off, same_find q))
    where
      same : clear_owner (some c) t owner ≡ (some c, t)
      same = unfold clear_owner find_entry in ground (arith, off)

      same_find : (q : Ptr) → owner ≡ q → find_from t.entries owner ≡ find_from t.entries q
      same_find q h = ap (find_from t.entries) h

  pub clear_owner-Cleaned : Cleaned t owner (clear_owner (some c) t owner)
  clear_owner-Cleaned = elim (Option-cases (find_from t.entries owner)) [
    | inl off ↦ clear_owner_unknown off
    | inr (e, found) ↦ elim (zero_or_pos e.dirty_card_count) [
      | inl z ↦ clear_owner_clean t c v k owner e found z
      | inr d ↦ clear_owner_dirty t c v k owner e found (found-ne-null e found) (omega arith)
    ]
  ]
