-- ===== src/CardTable/Visiting.antt =====
-- `gc_card_table_visit_dirty` (src/core/card_table.c): the snapshot holds each dirty card once and
-- fits the array that is allocated for it.
use xgc.Prelude.{
  ℕ, zero, suc, ◌+◌, ◌≤◌, ◌<◌, ◌≡◌, refl, ap, true, false, ◌&&◌, Option, none, some, List, [], ◌∷◌,
  ◌++◌, arith, ltb, ◌==◌, if◌then◌else◌, Ptr, size_mod, length, All, length-append,
}
use xgc.Bitmap
use xgc.Bitmap.Valid.{test_lem}
use xgc.CardTable.{CardEntry, CardTable, find_from}
use xgc.CardTable.Snapshots.{
  DirtyCardSnapshot, entry_dirty_count, entry_snapshot, dirty_count, snapshot, visit_each,
  visit_dirty,
}
use xgc.CardTable.Entries.{Distinct, sum_of}
use xgc.CardTable.Valid.{IsValidEntry, IsValidTable, cards_of}
use xgc.CardTable.Cards.{card_dirty}
use xgc.CardTable.Clearing.{clean_test}

-- How often a list names the card `j` of the owner `q`.
unfoldable pub times_listed : Ptr → ℕ → List DirtyCardSnapshot → ℕ
times_listed q j [] = 0
times_listed q j (d ∷ ds) =
    (if d.owner == q && d.card_index == j then 1 else 0) + times_listed q j ds

times_listed-append :
    (q : Ptr) (j : ℕ) (xs ys : List DirtyCardSnapshot)
    → times_listed q j (xs ++ ys) ≡ times_listed q j xs + times_listed q j ys
unfolding times_listed
times_listed-append q j [] ys = omega arith
times_listed-append q j (x ∷ xs) ys = omega (arith, times_listed-append q j xs ys)

entry_snapshot-listed :
    (e : CardEntry) (n : ℕ) (q : Ptr) (j : ℕ)
    → times_listed q j (entry_snapshot e n)
      ≡ (if e.owner_base == q && (ltb j n && Bitmap.test e.dirty_map j) then 1 else 0)
unfolding times_listed entry_snapshot
entry_snapshot-listed e zero q j = ground arith
entry_snapshot-listed e (suc n) q j = ground (
  arith,
  entry_snapshot-listed e n q j,
  times_listed-append q j (entry_snapshot e n)
      (record { owner = e.owner_base; card_index = n } ∷ []),
  same_test,
)
  where
    same_test : n ≡ j → Bitmap.test e.dirty_map n ≡ Bitmap.test e.dirty_map j
    same_test h = ap (Bitmap.test e.dirty_map) h

-- A set bit of a valid entry is one of its cards.
test-lt_cards :
    (g : ℕ) (e : CardEntry) (j : ℕ)
    → IsValidEntry g e
    → (ltb j e.card_count && Bitmap.test e.dirty_map j) ≡ Bitmap.test e.dirty_map j
test-lt_cards g e j v = ground (arith, test_lem e.dirty_map j v.map, v.count)

-- The dirty cards of one owner, by the entries.
abbrev listed_of : Option CardEntry → ℕ → ℕ
listed_of none j = 0
listed_of (some e) j = if Bitmap.test e.dirty_map j then 1 else 0

snapshot-listed :
    (g : ℕ) (es : List CardEntry) (q : Ptr) (j : ℕ)
    → All (IsValidEntry g) es
    → Distinct es
    → times_listed q j (snapshot es) ≡ listed_of (find_from es q) j
unfolding snapshot times_listed find_from
snapshot-listed g [] q j a d = refl
snapshot-listed g (e ∷ es) q j a d = ground (
  arith,
  snapshot-listed g es q j a.1 d.1,
  clean_test g e j a.0,
  entry_snapshot-listed e e.card_count q j,
  times_listed-append q j (entry_snapshot e e.card_count) (snapshot es),
  test-lt_cards g e j a.0,
  same_find,
)
  where
    same_find : e.owner_base ≡ q → find_from es e.owner_base ≡ find_from es q
    same_find h = ap (find_from es) h

entry_dirty_count-le : (e : CardEntry) (n : ℕ) → entry_dirty_count e n ≤ n
unfolding entry_dirty_count
entry_dirty_count-le e zero = omega arith
entry_dirty_count-le e (suc n) = ground (arith, entry_dirty_count-le e n)

-- The counting pass and the filling pass agree.
length-entry_snapshot :
    (e : CardEntry) (n : ℕ) → n < size_mod → length (entry_snapshot e n) ≡ entry_dirty_count e n
unfolding entry_snapshot entry_dirty_count
length-entry_snapshot e zero h = refl
length-entry_snapshot e (suc n) h = ground (
  arith,
  length-entry_snapshot e n (omega arith),
  entry_dirty_count-le e n,
  length-append (entry_snapshot e n) (record { owner = e.owner_base; card_index = n } ∷ []),
)

length-snapshot_le :
    (g : ℕ) (es : List CardEntry)
    → All (IsValidEntry g) es
    → sum_of cards_of es < size_mod
    → (length (snapshot es) ≡ dirty_count es) × (dirty_count es ≤ sum_of cards_of es)
unfolding snapshot dirty_count sum_of
length-snapshot_le g [] a h = (refl, omega arith)
length-snapshot_le g (e ∷ es) a h = ground (
  arith,
  length-snapshot_le g es a.1,
  length-entry_snapshot e e.card_count,
  entry_dirty_count-le e e.card_count,
  length-append (entry_snapshot e e.card_count) (snapshot es),
)

-- In a valid table the array for the snapshot has exactly as many elements as the second pass
-- writes.
pub length-snapshot :
    (t : CardTable) → IsValidTable t → length (snapshot t.entries) ≡ dirty_count t.entries
length-snapshot t v =
    (length-snapshot_le t.card_granularity t.entries v.entries_valid v.cards_fit).0

-- A visitor that counts the calls for one card.
unfoldable pub count_calls : Ptr → ℕ → Ptr → ℕ → ℕ → ℕ
count_calls q j owner card_index n = if owner == q && card_index == j then n + 1 else n

visit_each-count_calls :
    (q : Ptr) (j : ℕ) (ds : List DirtyCardSnapshot) (n : ℕ)
    → visit_each (count_calls q j) ds n ≡ n + times_listed q j ds
unfolding visit_each times_listed count_calls
visit_each-count_calls q j [] n = omega arith
visit_each-count_calls q j (d ∷ ds) n =
    ground (arith, visit_each-count_calls q j ds n, visit_each-count_calls q j ds (n + 1))

times_listed-le : (q : Ptr) (j : ℕ) (ds : List DirtyCardSnapshot) → times_listed q j ds ≤ length ds
unfolding times_listed
times_listed-le q j [] = omega arith
times_listed-le q j (d ∷ ds) = ground (arith, times_listed-le q j ds)

-- With memory for the snapshot, each dirty card of each owner is visited exactly once, and no clean
-- card is; without, nothing is visited.
pub visit_dirty_lem :
    (t : CardTable) (q : Ptr) (j : ℕ)
    → IsValidTable t
    → (visit_dirty true t (count_calls q j) 0 ≡ (if card_dirty t q j then 1 else 0))
      × (visit_dirty false t (count_calls q j) 0 ≡ 0)
unfolding visit_dirty card_dirty
visit_dirty_lem t q j v = ground (
  arith,
  snapshot-listed t.card_granularity t.entries q j v.entries_valid v.distinct,
  visit_each-count_calls q j (snapshot t.entries) 0,
  length-snapshot t v,
  times_listed-le q j (snapshot t.entries),
)
