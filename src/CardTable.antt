-- ===== src/CardTable.antt =====
-- The card table of src/core/card_table.c: one entry for each registered old object, with a bit for
-- each of its cards. `entries` lists the first `count` elements of the array, `is_allocated` says
-- whether its pointer is not NULL. The table is passed by value (no guard `table == NULL`); the
-- runtime pointer `rt` is the part of `rt->barriers` that these functions write, and `none` is NULL.
pub mod Registration
pub mod Snapshots
pub mod Entries
pub mod Valid
pub mod Marking
pub mod Owners
pub mod Clearing
pub mod Growing
pub mod Registering
pub mod Unregistering
pub mod Cards
pub mod Dirtying
pub mod Visiting
pub mod Budget
pub mod Registered
mod Tests
use xgc.Bitmap
use xgc.Bitmap.{Bitmap}
use xgc.Prelude.{
  ℕ, zero, suc, ◌+◌, ◌-◌, ◌*◌, ◌/◌, ◌<◌, ◌≡◌, Bool, true, false, not, ◌&&◌, ◌||◌, Option, none,
  some, List, [], ◌∷◌, ◌++◌, ltb, leb, ◌==◌, if◌then◌else◌, add_size, sub_size, mul_size, length,
  Ptr, null, is_none,
}

pub record CardEntry : Type 0 where
  pub owner_base : ℕ
  pub owner_size : ℕ
  pub card_count : ℕ
  pub dirty_card_count : ℕ
  pub dirty_map : Bitmap

pub record CardTable : Type 0 where
  pub entries : List CardEntry
  pub is_allocated : Bool
  pub capacity : ℕ
  pub card_granularity : ℕ

-- `rt->barriers.dirty_old_objects` and `rt->barriers.dirty_cards`.
pub record Counters : Type 0 where
  pub dirty_old_objects : ℕ
  pub dirty_cards : ℕ

-- The loop of `gc_card_table_find_entry_const`: the first entry with this base.
unfoldable pub find_from : List CardEntry → Ptr → Option CardEntry
find_from [] owner_base = none
find_from (e ∷ es) owner_base =
    if e.owner_base == owner_base then some e else find_from es owner_base

unfoldable pub find_entry : CardTable → Ptr → Option CardEntry
find_entry table owner = if owner == null then none else find_from table.entries owner

-- A write through the pointer that `find_entry` returns.
unfoldable pub put_entry : List CardEntry → Ptr → CardEntry → List CardEntry
put_entry [] owner_base new = []
put_entry (e ∷ es) owner_base new =
    if e.owner_base == owner_base then new ∷ es else e ∷ put_entry es owner_base new

abbrev pub default_card_granularity : ℕ
default_card_granularity = 256

unfoldable pub effective_granularity : CardTable → ℕ
effective_granularity table =
    if table.card_granularity == 0 then default_card_granularity else table.card_granularity

unfoldable pub card_index_for_slot : CardTable → CardEntry → Ptr → ℕ
unfolding effective_granularity
card_index_for_slot table entry slot_addr =
    if slot_addr == null || entry.card_count == 0
    then 0
    else if leb slot_addr entry.owner_base
    then 0
    else let card_index = (slot_addr - entry.owner_base) / effective_granularity table in
      if leb entry.card_count card_index then entry.card_count - 1 else card_index

unfoldable pub account_dirty_card : Option Counters → CardEntry → Option Counters × CardEntry
account_dirty_card rt entry = (
  elim rt [
    | none ↦ none
    | some c ↦ some (record {
      dirty_old_objects =
          if entry.dirty_card_count == 0
          then add_size c.dirty_old_objects 1
          else c.dirty_old_objects;
      dirty_cards = add_size c.dirty_cards 1;
    })
  ],
  record entry { dirty_card_count = add_size entry.dirty_card_count 1 },
)

unfoldable pub unaccount_dirty_owner : Option Counters → ℕ → Option Counters
unaccount_dirty_owner none dirty_card_count = none
unaccount_dirty_owner (some c) dirty_card_count =
    if dirty_card_count == 0
    then some c
    else some (record {
      dirty_old_objects =
          if ltb 0 c.dirty_old_objects then c.dirty_old_objects - 1 else c.dirty_old_objects;
      dirty_cards =
          if leb c.dirty_cards dirty_card_count then 0 else c.dirty_cards - dirty_card_count;
    })

unfoldable pub init : ℕ → CardTable
init card_granularity = record {
  entries = [];
  is_allocated = false;
  capacity = 0;
  card_granularity =
      if not (card_granularity == 0) then card_granularity else default_card_granularity;
}

abbrev pub destroy : CardTable → CardTable
destroy table = record { entries = []; is_allocated = false; capacity = 0; card_granularity = 0 }

-- `if (test) continue; set; account`
unfoldable pub mark_card : Option Counters → CardEntry → ℕ → Option Counters × CardEntry
unfolding account_dirty_card
mark_card rt entry card_index =
    if Bitmap.test entry.dirty_map card_index
    then (rt, entry)
    else account_dirty_card rt (record entry { dirty_map = Bitmap.set entry.dirty_map card_index })

unfoldable pub mark_slot : Option Counters → CardTable → Ptr → Ptr → Option Counters × CardTable
unfolding find_entry card_index_for_slot
mark_slot rt table owner slot_addr =
    if owner == null || slot_addr == null then (rt, table) else elim (find_entry table owner) [
      | none ↦ (rt, table)
      | some entry ↦
          if entry.card_count == 0
          then (rt, table)
          else let (rt', entry') = mark_card rt entry (card_index_for_slot table entry slot_addr) in
            (rt', record table { entries = put_entry table.entries owner entry' })
    ]

-- The loop of `gc_card_table_mark_owner` after the rounds 0, …, n - 1.
unfoldable pub mark_cards : Option Counters → CardEntry → ℕ → Option Counters × CardEntry
mark_cards rt entry zero = (rt, entry)
mark_cards rt entry (suc i) = let (rt', entry') = mark_cards rt entry i in mark_card rt' entry' i

unfoldable pub mark_owner : Option Counters → CardTable → Ptr → Option Counters × CardTable
unfolding find_entry
mark_owner rt table owner = if owner == null then (rt, table) else elim (find_entry table owner) [
  | none ↦ (rt, table)
  | some entry ↦
      let (rt', entry') = mark_cards rt entry entry.card_count in
      (rt', record table { entries = put_entry table.entries owner entry' })
]

unfoldable pub owner_is_dirty : CardTable → Ptr → Bool
unfolding find_entry
owner_is_dirty table owner = elim (find_entry table owner) [
  | none ↦ false
  | some entry ↦ not (entry.dirty_card_count == 0)
]

unfoldable pub clear_owner : Option Counters → CardTable → Ptr → Option Counters × CardTable
unfolding find_entry
clear_owner rt table owner = if owner == null then (rt, table) else elim (find_entry table owner) [
  | none ↦ (rt, table)
  | some entry ↦ if entry.dirty_card_count == 0 then (rt, table) else (
    unaccount_dirty_owner rt entry.dirty_card_count,
    record table {
      entries =
          put_entry table.entries owner
            (record entry { dirty_card_count = 0; dirty_map = Bitmap.clear_all entry.dirty_map });
    },
  )
]
