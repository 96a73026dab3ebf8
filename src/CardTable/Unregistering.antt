-- ===== src/CardTable/Unregistering.antt =====
-- `gc_card_table_unregister_owner` (src/core/card_table.c): the invariant, and that the owner is
-- forgotten with its dirty cards while every other owner is as before.
use xgc.Prelude.{
  ◌+◌, ◌≡◌, refl, ap, not, ◌&&◌, Option, none, some, arith, ◌==◌, if◌then◌else◌, Ptr, inl, inr,
  Option-cases,
}
use xgc.CardTable.{CardEntry, CardTable, Counters, find_from, unaccount_dirty_owner}
use xgc.CardTable.Registration.{unregister_owner, remove_from}
use xgc.CardTable.Entries.{
  find_from-remove_from, Distinct-remove_from, sum_of-remove_from, All-remove_from,
  length-remove_from-le,
}
use xgc.CardTable.Valid.{IsValidEntry, IsValidTable, Tracks, dirty_of, flag_of, cards_of}
use xgc.CardTable.Cards.{card_dirty}
use xgc.CardTable.Clearing.{Cleaned, unaccount_lem, found-ne-null}
use xgc.CardTable.Growing.{is_registered}

-- The table is valid, the counters are right, and only the owner and its cards are gone.
pub record Unregistered (t : CardTable) (owner : Ptr) (r : Option Counters × CardTable)
    : Type 0 where
  pub cleaned : Cleaned t owner r
  pub owners : (q : Ptr) → is_registered r.1 q ≡ (not (owner == q) && is_registered t q)

module _ (t : CardTable) (c : Counters) (v : IsValidTable t) (k : Tracks t c) (owner : Ptr) where
  abbrev removed : CardTable
  removed = record t { entries = remove_from t.entries owner }

  removed-find :
      (q : Ptr) → find_from removed.entries q ≡ (if owner == q then none else find_from t.entries q)
  removed-find q = find_from-remove_from owner t.entries q v.distinct

  removed-IsValidTable : IsValidTable removed
  removed-IsValidTable = record {
    granular = v.granular;
    granularity_fits = v.granularity_fits;
    room = omega (arith, length-remove_from-le owner t.entries, v.room);
    pointer = v.pointer;
    entries_valid =
        All-remove_from owner (IsValidEntry t.card_granularity) t.entries v.entries_valid;
    distinct = Distinct-remove_from owner t.entries v.distinct;
    cards_fit = omega (arith, sum_of-remove_from owner cards_of t.entries, v.cards_fit);
  }

  module _ (e : CardEntry) (found : find_from t.entries owner ≡ some e) where
    unregister_found :
        unregister_owner (some c) t owner
        ≡ (unaccount_dirty_owner (some c) e.dirty_card_count, removed)
    unfolding unregister_owner
    unregister_found = ground (arith, found-ne-null t c v k owner e found, found)

    removed-Tracks :
        (c' : Counters)
        → c'.dirty_cards + e.dirty_card_count ≡ c.dirty_cards
        → c'.dirty_old_objects + flag_of e ≡ c.dirty_old_objects
        → Tracks removed c'
    removed-Tracks c' h m = record {
      objects = ground (arith, sum_of-remove_from owner flag_of t.entries, k.objects, found);
      cards = ground (arith, sum_of-remove_from owner dirty_of t.entries, k.cards, found);
    }

    unregister_known : Unregistered t owner (unregister_owner (some c) t owner)
    unregister_known =
        let (c', eq, moved, moved_object) = unaccount_lem t c v k owner e found in
        rw (unregister_found, eq)
          (record {
            cleaned = (
              c',
              removed,
              refl,
              removed-IsValidTable,
              removed-Tracks c' moved moved_object,
              λ q j. unfold card_dirty in ground (arith, removed-find q),
            );
            owners = λ q. unfold is_registered in ground (arith, removed-find q);
          })

  -- An owner that is not registered changes nothing.
  unregister_unknown :
      find_from t.entries owner ≡ none → Unregistered t owner (unregister_owner (some c) t owner)
  unregister_unknown off = rw same (record {
    cleaned = (c, t, refl, v, k, λ q j. unfold card_dirty in ground (arith, off, same_find q));
    owners = λ q. unfold is_registered in ground (arith, off, same_find q);
  })
    where
      same : unregister_owner (some c) t owner ≡ (some c, t)
      same = unfold unregister_owner in ground (arith, off)

      same_find : (q : Ptr) → owner ≡ q → find_from t.entries owner ≡ find_from t.entries q
      same_find q h = ap (find_from t.entries) h

  pub unregister_owner-Unregistered : Unregistered t owner (unregister_owner (some c) t owner)
  unregister_owner-Unregistered = elim (Option-cases (find_from t.entries owner)) [
    | inl off ↦ unregister_unknown off
    | inr (e, found) ↦ unregister_known e found
  ]
