-- ===== src/CardTable/Growing.antt =====
-- The two steps of `gc_card_table_register_owner` (src/core/card_table.c): the array grows, and an
-- entry is added behind the others.
use xgc.Prelude.{
  ℕ, ◌+◌, ◌*◌, ◌<◌, ◌≡◌, refl, ◌∙◌, sym, ap, Bool, true, false, not, ◌&&◌, ◌||◌, none, [], ◌∷◌,
  ◌++◌, arith, ◌==◌, Ptr, inl, inr, Bool-cases, size_mod, length, length-append, is_none,
}
use xgc.Bitmap
use xgc.CardTable.{CardEntry, CardTable, Counters, find_from}
use xgc.CardTable.Registration.{card_count_for, grow}
use xgc.CardTable.Entries.{sum_of}
use xgc.CardTable.Valid.{IsValidEntry, IsValidTable, Tracks, dirty_of, flag_of, cards_of}
use xgc.CardTable.Cards.{card_dirty}
use xgc.CardTable.Owners.{find_from-append, Distinct-append, sum_of-append, All-append}

unfoldable pub is_registered : CardTable → Ptr → Bool
is_registered t q = not (is_none (find_from t.entries q))

-- A registration that answers `r.0`: the table is valid, the counters are right, no card changes,
-- and the owner is registered if the answer is true; all other owners stay as they were.
pub record Registered (t : CardTable) (c : Counters) (owner : Ptr) (r : Bool × CardTable)
    : Type 0 where
  pub valid : IsValidTable r.1
  pub tracks : Tracks r.1 c
  pub cards : (q : Ptr) (j : ℕ) → card_dirty r.1 q j ≡ card_dirty t q j
  pub owners : (q : Ptr) → is_registered r.1 q ≡ ((r.0 && owner == q) || is_registered t q)

module _ (t : CardTable) (c : Counters) (v : IsValidTable t) (k : Tracks t c) where
  pub grow-IsValidTable : t.capacity * 2 < size_mod → IsValidTable (grow t)
  unfolding grow
  grow-IsValidTable fits = elim (Bool-cases (length t.entries == t.capacity)) [
    | inl full ↦
        rw (full, grow)
          (record {
            granular = v.granular;
            granularity_fits = v.granularity_fits;
            room = ground (arith, v.room);
            pointer = ground arith;
            entries_valid = v.entries_valid;
            distinct = v.distinct;
            cards_fit = v.cards_fit;
          })
    | inr spare ↦ rw (spare, grow) v
  ]

  pub grow_same : ((grow t).entries ≡ t.entries) × ((grow t).card_granularity ≡ t.card_granularity)
  unfolding grow
  grow_same = ground arith

  pub grow_room : t.capacity * 2 < size_mod → length t.entries < (grow t).capacity
  unfolding grow
  grow_room fits = ground (arith, v.room)

  pub grow-Tracks : Tracks (grow t) c
  grow-Tracks = record {
    objects = k.objects ∙ ap (sum_of flag_of) (sym grow_same.0);
    cards = k.cards ∙ ap (sum_of dirty_of) (sym grow_same.0);
  }

  pub grow-card_dirty : (q : Ptr) (j : ℕ) → card_dirty (grow t) q j ≡ card_dirty t q j
  unfolding card_dirty
  grow-card_dirty q j = rw (grow_same.0) refl

  pub grow-is_registered : (q : Ptr) → is_registered (grow t) q ≡ is_registered t q
  unfolding is_registered
  grow-is_registered q = rw (grow_same.0) refl

  pub card_count_for-grow : (n : ℕ) → card_count_for (grow t) n ≡ card_count_for t n
  unfolding card_count_for
  card_count_for-grow n = rw (grow_same.1) refl

  -- A clean entry of an unknown owner, added where there is room.
  module _ (e : CardEntry) (valid : IsValidEntry t.card_granularity e)
      (clean : (j : ℕ) → Bitmap.test e.dirty_map j ≡ false) (zero_dirty : e.dirty_card_count ≡ 0)
      (absent : find_from t.entries e.owner_base ≡ none) (room : length t.entries < t.capacity)
      (cards_fit : sum_of cards_of t.entries + e.card_count < size_mod) where
    abbrev pub appended : CardTable
    appended = record t { entries = t.entries ++ e ∷ [] }

    pub appended-Registered : Registered t c e.owner_base (true, appended)
    appended-Registered = record {
      valid = record {
        granular = v.granular;
        granularity_fits = v.granularity_fits;
        room = omega (arith, length-append t.entries (e ∷ []));
        pointer = v.pointer;
        entries_valid =
            All-append (IsValidEntry t.card_granularity) t.entries e v.entries_valid valid;
        distinct = Distinct-append t.entries e v.distinct absent;
        cards_fit = omega (arith, sum_of-append cards_of t.entries e);
      };
      tracks = record {
        objects = ground (arith, sum_of-append flag_of t.entries e, k.objects);
        cards = omega (arith, sum_of-append dirty_of t.entries e, k.cards);
      };
      cards = λ q j.
          unfold card_dirty in
          ground (arith, find_from-append t.entries e q absent, clean j, absent, same_find q);
      owners = λ q. unfold is_registered in ground (arith, find_from-append t.entries e q absent);
    }
      where
        same_find :
            (q : Ptr) → e.owner_base ≡ q → find_from t.entries e.owner_base ≡ find_from t.entries q
        same_find q h = ap (find_from t.entries) h

  pub unchanged :
      (b : Bool) (owner : Ptr)
      → ((q : Ptr) → is_registered t q ≡ ((b && owner == q) || is_registered t q))
      → Registered t c owner (b, t)
  unchanged b owner h = record { valid = v; tracks = k; cards = λ q j. refl; owners = h }
