-- ===== src/CardTable/Snapshots.antt =====
-- `gc_card_table_visit_dirty` (src/core/card_table.c): the dirty cards are listed first and visited
-- then.
use xgc.Bitmap
use xgc.CardTable.{CardEntry, CardTable}
use xgc.Prelude.{
  ℕ, zero, suc, Bool, not, ◌||◌, List, [], ◌∷◌, ◌++◌, ◌==◌, if◌then◌else◌, add_size, Ptr,
}

-- `GcDirtyCardSnapshot`
pub record DirtyCardSnapshot : Type 0 where
  pub owner : Ptr
  pub card_index : ℕ

-- The inner loops of `gc_card_table_visit_dirty` after the rounds 0, …, n - 1.
unfoldable pub entry_dirty_count : CardEntry → ℕ → ℕ
entry_dirty_count entry zero = 0
entry_dirty_count entry (suc i) =
    let counted = entry_dirty_count entry i in
    if Bitmap.test entry.dirty_map i then add_size counted 1 else counted

unfoldable pub entry_snapshot : CardEntry → ℕ → List DirtyCardSnapshot
entry_snapshot entry zero = []
entry_snapshot entry (suc i) =
    let taken = entry_snapshot entry i in
    if not (Bitmap.test entry.dirty_map i)
    then taken
    else taken ++ record { owner = entry.owner_base; card_index = i } ∷ []

-- The outer loops, which pass over clean entries.
unfoldable pub dirty_count : List CardEntry → ℕ
unfolding entry_dirty_count
dirty_count [] = 0
dirty_count (e ∷ es) =
    let rest = dirty_count es in
    if e.dirty_card_count == 0 then rest else add_size (entry_dirty_count e e.card_count) rest

unfoldable pub snapshot : List CardEntry → List DirtyCardSnapshot
unfolding entry_snapshot
snapshot [] = []
snapshot (e ∷ es) =
    let rest = snapshot es in
    if e.dirty_card_count == 0 then rest else entry_snapshot e e.card_count ++ rest

-- The calls of `visit`, in order, on the state that the visitor changes. They are made on the
-- snapshot, so a visitor that changes the table does not change which cards are visited. `granted`
-- says whether the snapshot can be allocated.
unfoldable pub visit_each {ℓ} : {S : Type ℓ} → (Ptr → ℕ → S → S) → List DirtyCardSnapshot → S → S
visit_each visit [] s = s
visit_each visit (d ∷ ds) s = visit_each visit ds (visit d.owner d.card_index s)

unfoldable pub visit_dirty {ℓ} : {S : Type ℓ} → Bool → CardTable → (Ptr → ℕ → S → S) → S → S
unfolding dirty_count snapshot
visit_dirty granted table visit s =
    if dirty_count table.entries == 0 || not granted
    then s
    else visit_each visit (snapshot table.entries) s
