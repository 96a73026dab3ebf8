-- ===== src/CardTable/Registration.antt =====
-- `gc_card_table_register_owner` and `gc_card_table_unregister_owner` (src/core/card_table.c).
use xgc.Bitmap
use xgc.Bitmap.{Bitmap}
use xgc.CardTable.{
  CardEntry, CardTable, Counters, find_from, find_entry, effective_granularity,
  unaccount_dirty_owner,
}
use xgc.Prelude.{
  ℕ, ◌/◌, Bool, true, false, not, ◌&&◌, ◌||◌, Option, none, some, List, [], ◌∷◌, ◌++◌, ltb, ◌==◌,
  if◌then◌else◌, add_size, sub_size, mul_size, length, Ptr, null, is_none,
}

-- The number of cards of an object, at least one.
unfoldable pub card_count_for : CardTable → ℕ → ℕ
unfolding effective_granularity
card_count_for table owner_size =
    let granularity = effective_granularity table in
    let card_count = sub_size (add_size owner_size granularity) 1 / granularity in
    if card_count == 0 then 1 else card_count

-- The table after `realloc`, if its array is full.
unfoldable pub grow : CardTable → CardTable
grow table =
    if length table.entries == table.capacity
    then record table {
      is_allocated = true;
      capacity = if ltb 0 table.capacity then mul_size table.capacity 2 else 32;
    }
    else table

-- `array_granted` and `bits_granted` say whether the array and the bit map can be allocated.
unfoldable pub register_owner : Bool → Bool → CardTable → Ptr → ℕ → Bool × CardTable
unfolding find_entry card_count_for grow
register_owner array_granted bits_granted table owner owner_size =
    if owner == null || owner_size == 0
    then (false, table)
    else if not (is_none (find_entry table owner))
    then (true, table)
    else if length table.entries == table.capacity && not array_granted
    then (false, table)
    else let grown = grow table in
      let card_count = card_count_for grown owner_size in
      let entry : CardEntry = record {
        owner_base = owner;
        owner_size = owner_size;
        card_count = card_count;
        dirty_card_count = 0;
        dirty_map = Bitmap.init bits_granted card_count;
      } in
      if not (entry.dirty_map.bit_count == card_count)
      then (false, grown)
      else (true, record grown { entries = grown.entries ++ entry ∷ [] })

-- `*entry = table->entries[table->count - 1u]; table->count--`, on the entries from `entry` on.
unfoldable pub last_entry : CardEntry → List CardEntry → CardEntry
last_entry e [] = e
last_entry e (f ∷ fs) = last_entry f fs

unfoldable pub but_last : CardEntry → List CardEntry → List CardEntry
but_last e [] = []
but_last e (f ∷ fs) = e ∷ but_last f fs

unfoldable pub replace_by_last : List CardEntry → List CardEntry
unfolding last_entry but_last
replace_by_last [] = []
replace_by_last (f ∷ fs) = last_entry f fs ∷ but_last f fs

-- The loop of `gc_card_table_unregister_owner`.
unfoldable pub remove_from : List CardEntry → Ptr → List CardEntry
unfolding replace_by_last
remove_from [] owner_base = []
remove_from (e ∷ es) owner_base =
    if not (e.owner_base == owner_base) then e ∷ remove_from es owner_base else replace_by_last es

-- The first entry with the owner's base is the one that `find_from` finds.
unfoldable pub unregister_owner : Option Counters → CardTable → Ptr → Option Counters × CardTable
unfolding remove_from
unregister_owner rt table owner =
    if owner == null then (rt, table) else elim (find_from table.entries owner) [
      | none ↦ (rt, table)
      | some entry ↦ (
        unaccount_dirty_owner rt entry.dirty_card_count,
        record table { entries = remove_from table.entries owner },
      )
    ]
