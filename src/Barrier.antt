-- ===== src/Barrier.antt =====
-- The write-barrier set of src/core/barrier.c and the checkers of src/core/invariants.c for it and
-- for its card table. `rt` is the part of the runtime that these functions reach, its field
-- `barriers`; `none` is a NULL runtime. The table and the counters are fields of one object there:
-- the card table's functions are handed both, and both come back.
pub mod Valid
pub mod Checks
pub mod Steps
pub mod Remembering
mod Tests
use xgc.Bitmap
use xgc.CardTable
use xgc.CardTable.{CardTable, CardEntry, Counters}
use xgc.Prelude.{
  ℕ, ◌+◌, ◌≡◌, Bool, true, false, not, ◌&&◌, ◌||◌, Option, none, some, List, [], ◌∷◌, ltb, ◌==◌,
  if◌then◌else◌, add_size, length, Ptr,
}

pub record BarrierSet : Type 0 where
  pub old_to_young : CardTable
  pub dirty_old_objects : ℕ
  pub dirty_cards : ℕ

abbrev pub counters_of : BarrierSet → Counters
counters_of b = record { dirty_old_objects = b.dirty_old_objects; dirty_cards = b.dirty_cards }

-- The fields that a card-table function has written.
abbrev pub written : BarrierSet → Option Counters × CardTable → BarrierSet
written b (none, t) = record b { old_to_young = t }
written b (some c, t) = record {
  old_to_young = t;
  dirty_old_objects = c.dirty_old_objects;
  dirty_cards = c.dirty_cards;
}

unfoldable pub set_init : ℕ → BarrierSet
set_init card_granularity = record {
  old_to_young = CardTable.init card_granularity;
  dirty_old_objects = 0;
  dirty_cards = 0;
}

abbrev pub set_destroy : BarrierSet → BarrierSet
set_destroy b = record {
  old_to_young = record { entries = []; is_allocated = false; capacity = 0; card_granularity = 0 };
  dirty_old_objects = 0;
  dirty_cards = 0;
}

unfoldable pub register_owner : Bool → Bool → Option BarrierSet → Ptr → ℕ → Bool × Option BarrierSet
register_owner array_granted bits_granted none owner owner_size = (false, none)
register_owner array_granted bits_granted (some b) owner owner_size =
    let (registered, t) =
      CardTable.Registration.register_owner array_granted bits_granted b.old_to_young owner
        owner_size in
    (registered, some (record b { old_to_young = t }))

unfoldable pub unregister_owner : Option BarrierSet → Ptr → Option BarrierSet
unregister_owner none owner = none
unregister_owner (some b) owner = some (
    written b (CardTable.Registration.unregister_owner (some (counters_of b)) b.old_to_young owner))

unfoldable pub mark_slot_dirty : Option BarrierSet → Ptr → Ptr → Option BarrierSet
mark_slot_dirty none owner slot_addr = none
mark_slot_dirty (some b) owner slot_addr =
    some (written b (CardTable.mark_slot (some (counters_of b)) b.old_to_young owner slot_addr))

unfoldable pub mark_owner_dirty : Option BarrierSet → Ptr → Option BarrierSet
mark_owner_dirty none owner = none
mark_owner_dirty (some b) owner =
    some (written b (CardTable.mark_owner (some (counters_of b)) b.old_to_young owner))

unfoldable pub is_owner_dirty : Option BarrierSet → Ptr → Bool
is_owner_dirty none owner = false
is_owner_dirty (some b) owner = CardTable.owner_is_dirty b.old_to_young owner

unfoldable pub clear_owner_dirty : Option BarrierSet → Ptr → Option BarrierSet
clear_owner_dirty none owner = none
clear_owner_dirty (some b) owner =
    some (written b (CardTable.clear_owner (some (counters_of b)) b.old_to_young owner))

unfoldable pub visit_dirty_cards {ℓ} :
    {S : Type ℓ} → Bool → Option BarrierSet → (Ptr → ℕ → S → S) → S → S
visit_dirty_cards granted none visit s = s
visit_dirty_cards granted (some b) visit s =
    CardTable.Snapshots.visit_dirty granted b.old_to_young visit s

-- `a != b` for two tests.
abbrev pub differ : Bool → Bool → Bool
differ true b = not b
differ false b = b

-- The body of the loop of `gc_card_table_check_invariants`; its inner loop counts as
-- `gc_card_table_visit_dirty` does.
unfoldable pub check_entry : CardEntry → Bool
check_entry entry =
    if entry.owner_base == 0
    then false
    else if entry.owner_size == 0
    then false
    else if entry.card_count == 0
    then false
    else if not (Bitmap.check_invariants entry.dirty_map)
    then false
    else if not (entry.dirty_map.bit_count == entry.card_count)
    then false
    else CardTable.Snapshots.entry_dirty_count entry entry.card_count == entry.dirty_card_count

unfoldable pub check_entries : List CardEntry → Bool
check_entries [] = true
check_entries (e ∷ es) = check_entry e && check_entries es

unfoldable pub card_table_check_invariants : CardTable → Bool
unfolding check_entries
card_table_check_invariants table =
    if ltb table.capacity (length table.entries)
    then false
    else if differ (table.capacity == 0) (not table.is_allocated)
    then false
    else if table.card_granularity == 0
    then false
    else check_entries table.entries

-- The two sums of `gc_barrier_set_check_invariants`.
unfoldable pub count_dirty_objects : List CardEntry → ℕ
count_dirty_objects [] = 0
count_dirty_objects (e ∷ es) =
    let rest = count_dirty_objects es in
    if not (e.dirty_card_count == 0) then add_size rest 1 else rest

unfoldable pub count_dirty_cards : List CardEntry → ℕ
count_dirty_cards [] = 0
count_dirty_cards (e ∷ es) =
    let rest = count_dirty_cards es in
    if not (e.dirty_card_count == 0) then add_size rest e.dirty_card_count else rest

unfoldable pub set_check_invariants : BarrierSet → Bool
set_check_invariants b =
    if not (card_table_check_invariants b.old_to_young)
    then false
    else if not (count_dirty_objects b.old_to_young.entries == b.dirty_old_objects)
    then false
    else if not (count_dirty_cards b.old_to_young.entries == b.dirty_cards)
    then false
    else not (ltb (length b.old_to_young.entries) b.dirty_old_objects)
