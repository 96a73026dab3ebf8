-- ===== src/CardTable/Tests.antt =====
-- Runs of src/core/card_table.c on a table with one owner of 600 bytes.
use xgc.Bitmap
use xgc.Bitmap.{Bitmap}
use xgc.Bitmap.Resize.{init_lem}
use xgc.Bitmap.Count.{count_set}
use xgc.CardTable.{CardEntry, CardTable, find_from, card_index_for_slot, effective_granularity}
use xgc.CardTable.Registration.{card_count_for}
use xgc.CardTable.Entries.{sum_of}
use xgc.CardTable.Valid.{IsValidEntry, IsValidTable}
use xgc.CardTable.Cards.{card_index_bounds}
use xgc.CardTable.Owners.{card_count_for_bounds}
use xgc.Prelude.{◌+◌, ◌-◌, ◌*◌, ◌≤◌, ◌<◌, ◌≡◌, ◌≢◌, refl, true, some, [], ◌∷◌, arith}

abbrev one_entry : CardEntry
one_entry = record {
  owner_base = 4096;
  owner_size = 600;
  card_count = 3;
  dirty_card_count = 0;
  dirty_map = record { bits = some (0 ∷ []); bit_count = 3; byte_count = 1 };
}

abbrev one_owner : CardTable
one_owner = record {
  entries = one_entry ∷ [];
  is_allocated = true;
  capacity = 32;
  card_granularity = 256;
}

one_entry-IsValid : IsValidEntry 256 one_entry
unfolding Bitmap.init Bitmap.resize count_set Bitmap.test
one_entry-IsValid = record {
  base = omega arith;
  sized = omega arith;
  cards = omega arith;
  map = (init_lem 3 0 (omega arith)).0;
  count = refl;
  dirty = refl;
  covered = omega arith;
}

one_owner-IsValid : IsValidTable one_owner
unfolding sum_of find_from
one_owner-IsValid = record {
  granular = omega arith;
  granularity_fits = omega arith;
  room = omega arith;
  pointer = refl;
  entries_valid = (one_entry-IsValid, tt);
  distinct = (refl, tt);
  cards_fit = omega arith;
}

run_index : card_index_for_slot one_owner one_entry 4400 ≡ 1
unfolding card_index_for_slot effective_granularity
run_index = refl

run_cards : card_count_for one_owner 600 ≡ 3
unfolding card_count_for effective_granularity
run_cards = refl

card_index_bounds_example :
    (card_index_for_slot one_owner one_entry 4400 < 3)
    × (card_index_for_slot one_owner one_entry 4400 * 256 ≤ 4400 - 4096)
    × (4400 - 4096 < card_index_for_slot one_owner one_entry 4400 * 256 + 256)
card_index_bounds_example =
    card_index_bounds one_owner one_entry 4400 (omega arith) one_entry-IsValid (omega arith)
      (omega arith)

card_count_for_bounds_example :
    (600 ≤ card_count_for one_owner 600 * 256)
    × (card_count_for one_owner 600 ≢ 0)
    × (card_count_for one_owner 600 ≤ 600)
card_count_for_bounds_example =
    card_count_for_bounds one_owner 600 (omega arith) (omega arith) (omega arith)
