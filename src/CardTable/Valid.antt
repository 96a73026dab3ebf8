-- ===== src/CardTable/Valid.antt =====
-- The invariant of the card table and of the two counters beside it, and the one rule by which every
-- operation on an entry keeps it (src/core/card_table.c).
use xgc.Prelude.{
  ℕ, ◌+◌, ◌*◌, ◌≤◌, ◌<◌, ◌≡◌, ◌≢◌, ◌∙◌, not, some, List, [], ◌∷◌, arith, ◌==◌, if◌then◌else◌,
  length, All, Ptr, size_mod,
}
use xgc.Bitmap
use xgc.Bitmap.Count.{count_set, count_set-le}
use xgc.CardTable.{CardEntry, CardTable, Counters, find_from, put_entry}
use xgc.CardTable.Entries.{
  Distinct, sum_of, base_of_found, sum_of-put_entry, Distinct-put_entry, All-put_entry,
  length-put_entry,
}

-- The dirty count of an entry is the number of set bits of its map, which has a bit for each card;
-- the cards cover the object.
pub record IsValidEntry (granularity : ℕ) (e : CardEntry) : Type 0 where
  pub base : e.owner_base ≢ 0
  pub sized : e.owner_size ≢ 0
  pub cards : e.card_count ≢ 0
  pub map : Bitmap.Valid.IsValid e.dirty_map
  pub count : e.dirty_map.bit_count ≡ e.card_count
  pub dirty : e.dirty_card_count ≡ count_set e.dirty_map e.card_count
  pub covered : e.owner_size ≤ e.card_count * granularity

abbrev pub cards_of : CardEntry → ℕ
cards_of e = e.card_count

abbrev pub dirty_of : CardEntry → ℕ
dirty_of e = e.dirty_card_count

-- 1 for an entry with a dirty card.
abbrev pub flag_of : CardEntry → ℕ
flag_of e = if e.dirty_card_count == 0 then 0 else 1

pub record IsValidTable (t : CardTable) : Type 0 where
  pub granular : t.card_granularity ≢ 0
  pub granularity_fits : t.card_granularity < size_mod
  pub room : length t.entries ≤ t.capacity
  pub pointer : t.is_allocated ≡ not (t.capacity == 0)
  pub entries_valid : All (IsValidEntry t.card_granularity) t.entries
  pub distinct : Distinct t.entries
  pub cards_fit : sum_of cards_of t.entries < size_mod

-- The counters are the numbers of dirty objects and of dirty cards in the table.
pub record Tracks (t : CardTable) (c : Counters) : Type 0 where
  pub objects : c.dirty_old_objects ≡ sum_of flag_of t.entries
  pub cards : c.dirty_cards ≡ sum_of dirty_of t.entries

pub dirty-le-cards :
    (g : ℕ) (es : List CardEntry)
    → All (IsValidEntry g) es
    → sum_of dirty_of es ≤ sum_of cards_of es
unfolding sum_of
dirty-le-cards g [] a = omega arith
dirty-le-cards g (e ∷ es) a =
    let v = a.0 in
    omega (arith, dirty-le-cards g es a.1, count_set-le e.dirty_map e.card_count, v.dirty)

pub flags-le-dirty : (es : List CardEntry) → sum_of flag_of es ≤ sum_of dirty_of es
unfolding sum_of
flags-le-dirty [] = omega arith
flags-le-dirty (e ∷ es) = ground (arith, flags-le-dirty es)

pub flags-le-length : (es : List CardEntry) → sum_of flag_of es ≤ length es
unfolding sum_of
flags-le-length [] = omega arith
flags-le-length (e ∷ es) = ground (arith, flags-le-length es)

-- An operation on one entry, seen from outside: the same object and cards, a valid entry, and the
-- counters moved by as much as the entry's own count.
pub record Swapped (g : ℕ) (c : Counters) (e : CardEntry) (c' : Counters) (e' : CardEntry)
    : Type 0 where
  pub same_base : e'.owner_base ≡ e.owner_base
  pub same_count : e'.card_count ≡ e.card_count
  pub valid : IsValidEntry g e'
  pub moved_cards : c'.dirty_cards + e.dirty_card_count ≡ c.dirty_cards + e'.dirty_card_count
  pub moved_objects : c'.dirty_old_objects + flag_of e ≡ c.dirty_old_objects + flag_of e'

abbrev pub with_entry : CardTable → Ptr → CardEntry → CardTable
with_entry t p e = record t { entries = put_entry t.entries p e }

module _ (t : CardTable) (c c' : Counters) (p : Ptr) (e e' : CardEntry) (v : IsValidTable t)
    (k : Tracks t c) (found : find_from t.entries p ≡ some e)
    (s : Swapped t.card_granularity c e c' e') where
  pub with_entry-IsValidTable : IsValidTable (with_entry t p e')
  with_entry-IsValidTable =
      let same = s.same_base ∙ base_of_found t.entries p e found in
      record {
        granular = v.granular;
        granularity_fits = v.granularity_fits;
        room = rw (length-put_entry t.entries p e') v.room;
        pointer = v.pointer;
        entries_valid =
            All-put_entry p e' same (IsValidEntry t.card_granularity) t.entries v.entries_valid
              s.valid;
        distinct = Distinct-put_entry p e' same t.entries v.distinct;
        cards_fit = omega (
          arith,
          sum_of-put_entry p e' same cards_of t.entries e found,
          s.same_count,
          v.cards_fit,
        );
      }

  pub with_entry-Tracks : Tracks (with_entry t p e') c'
  with_entry-Tracks =
      let same = s.same_base ∙ base_of_found t.entries p e found in
      record {
        objects = omega (
          arith,
          sum_of-put_entry p e' same flag_of t.entries e found,
          s.moved_objects,
          k.objects,
        );
        cards =
            omega (
              arith,
              sum_of-put_entry p e' same dirty_of t.entries e found,
              s.moved_cards,
              k.cards,
            );
      }
