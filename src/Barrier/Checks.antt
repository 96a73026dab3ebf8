-- ===== src/Barrier/Checks.antt =====
-- The checkers of src/core/invariants.c accept every valid bitmap, card table and barrier set.
use xgc.Bitmap.Valid.{IsValid-check_invariants}
use xgc.Bitmap.Count.{count_set, count_set-le}
use xgc.CardTable.{CardTable, CardEntry}
use xgc.CardTable.Snapshots.{entry_dirty_count}
use xgc.CardTable.Entries.{sum_of}
use xgc.CardTable.Valid.{
  IsValidEntry, IsValidTable, dirty_of, flag_of, cards_of, dirty-le-cards, flags-le-length,
}
use xgc.Barrier.{
  BarrierSet, check_entry, check_entries, card_table_check_invariants, count_dirty_objects,
  count_dirty_cards, set_check_invariants,
}
use xgc.Barrier.Valid.{IsValid}
use xgc.Prelude.{
  ℕ, zero, suc, ◌<◌, ◌≤◌, ◌≡◌, refl, true, List, [], ◌∷◌, arith, size_mod, length, All,
}

-- The counting loop counts the set bits.
entry_dirty_count-count_set :
    (e : CardEntry) (n : ℕ) → n < size_mod → entry_dirty_count e n ≡ count_set e.dirty_map n
unfolding entry_dirty_count count_set
entry_dirty_count-count_set e zero h = refl
entry_dirty_count-count_set e (suc n) h =
    ground (arith, entry_dirty_count-count_set e n (omega arith), count_set-le e.dirty_map n)

IsValidEntry-check_entry : (g : ℕ) (e : CardEntry) → IsValidEntry g e → check_entry e ≡ true
unfolding check_entry
IsValidEntry-check_entry g e v = ground (
  arith,
  IsValid-check_invariants v.map,
  entry_dirty_count-count_set e e.card_count (omega (arith, v.map.fits, v.count)),
  v.dirty,
  v.count,
  v.base,
  v.sized,
  v.cards,
)

All-check_entries :
    (g : ℕ) (es : List CardEntry) → All (IsValidEntry g) es → check_entries es ≡ true
unfolding check_entries
All-check_entries g [] a = refl
All-check_entries g (e ∷ es) a =
    ground (arith, IsValidEntry-check_entry g e a.0, All-check_entries g es a.1)

pub IsValidTable-check : (t : CardTable) → IsValidTable t → card_table_check_invariants t ≡ true
unfolding card_table_check_invariants
IsValidTable-check t v = ground (
  arith,
  All-check_entries t.card_granularity t.entries v.entries_valid,
  v.room,
  v.pointer,
  v.granular,
)

count_dirty_objects_eq :
    (es : List CardEntry) → length es < size_mod → count_dirty_objects es ≡ sum_of flag_of es
unfolding count_dirty_objects sum_of
count_dirty_objects_eq [] h = refl
count_dirty_objects_eq (e ∷ es) h =
    ground (arith, count_dirty_objects_eq es (omega arith), flags-le-length es)

count_dirty_cards_eq :
    (es : List CardEntry)
    → sum_of dirty_of es < size_mod
    → count_dirty_cards es ≡ sum_of dirty_of es
unfolding count_dirty_cards sum_of
count_dirty_cards_eq [] h = refl
count_dirty_cards_eq (e ∷ es) h = ground (arith, count_dirty_cards_eq es)

-- The number of entries is at most the number of cards.
length-le-cards :
    (g : ℕ) (es : List CardEntry) → All (IsValidEntry g) es → length es ≤ sum_of cards_of es
unfolding sum_of
length-le-cards g [] a = omega arith
length-le-cards g (e ∷ es) a = omega (arith, length-le-cards g es a.1, a.0.cards)

-- `gc_barrier_set_check_invariants` accepts a valid barrier set.
pub IsValid-set_check : (b : BarrierSet) → IsValid b → set_check_invariants b ≡ true
unfolding set_check_invariants
IsValid-set_check b v =
    let es = b.old_to_young.entries in
    let g = b.old_to_young.card_granularity in
    let few = length-le-cards g es v.table.entries_valid in
    let cards = dirty-le-cards g es v.table.entries_valid in
    ground (
      arith,
      IsValidTable-check b.old_to_young v.table,
      count_dirty_objects_eq es (omega (arith, few, v.table.cards_fit)),
      count_dirty_cards_eq es (omega (arith, cards, v.table.cards_fit)),
      flags-le-length es,
      v.tracks.objects,
      v.tracks.cards,
    )
