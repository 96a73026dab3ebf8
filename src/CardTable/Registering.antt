-- ===== src/CardTable/Registering.antt =====
-- `gc_card_table_register_owner` (src/core/card_table.c) on every branch: the invariant, the
-- registered owners, and the dirty cards.
use xgc.Prelude.{
  ℕ, ◌+◌, ◌*◌, ◌≤◌, ◌<◌, ◌≡◌, ◌≢◌, refl, ◌∙◌, sym, ap, Bool, true, false, not, ◌&&◌, ◌||◌, none,
  some, [], ◌∷◌, ◌++◌, arith, ◌==◌, Ptr, null, ◌⊎◌, inl, inr, Bool-cases, Option-cases, zero_or_pos,
  size_mod, length,
}
use xgc.Bitmap
use xgc.Bitmap.Resize.{init_lem}
use xgc.Bitmap.Count.{count_set-none}
use xgc.CardTable.{CardEntry, CardTable, Counters, find_from}
use xgc.CardTable.Registration.{register_owner, card_count_for, grow}
use xgc.CardTable.Entries.{sum_of}
use xgc.CardTable.Valid.{IsValidEntry, IsValidTable, Tracks, cards_of}
use xgc.CardTable.Owners.{card_count_for_bounds}
use xgc.CardTable.Growing.{
  is_registered, Registered, grow-IsValidTable, grow_same, grow_room, grow-Tracks, grow-card_dirty,
  grow-is_registered, card_count_for-grow, unchanged, appended-Registered,
}

module _ (t : CardTable) (c : Counters) (v : IsValidTable t) (k : Tracks t c) (owner : Ptr)
    (owner_size : ℕ) (array_fits : t.capacity * 2 < size_mod)
    (size_fits : owner_size + t.card_granularity < size_mod)
    (cards_fit : sum_of cards_of t.entries + owner_size + 7 < size_mod) where
  abbrev pub cards : ℕ
  cards = card_count_for (grow t) owner_size

  abbrev pub added : CardEntry
  added = record {
    owner_base = owner;
    owner_size = owner_size;
    card_count = cards;
    dirty_card_count = 0;
    dirty_map = Bitmap.init true cards;
  }

  abbrev pub grown_with : CardTable
  grown_with = record (grow t) { entries = (grow t).entries ++ added ∷ [] }

  module _ (ne : owner ≢ null) (sized : owner_size ≢ 0)
      (absent : find_from t.entries owner ≡ none) where
    pub cards_bounds :
        (owner_size ≤ cards * t.card_granularity) × (cards ≢ 0) × (cards ≤ owner_size)
    cards_bounds =
        rw (card_count_for-grow t c v k owner_size)
          (card_count_for_bounds t owner_size v.granular sized size_fits)

    fresh :
        (j : ℕ)
        → Bitmap.Valid.IsValid (Bitmap.init true cards)
          × ((Bitmap.init true cards).bit_count ≡ cards)
          × (Bitmap.test (Bitmap.init true cards) j ≡ false)
          × (Bitmap.init false cards ≡ Bitmap.zeroed)
    fresh j = init_lem cards j (omega (arith, cards_bounds.2))

    added-IsValidEntry : IsValidEntry (grow t).card_granularity added
    unfolding grow
    added-IsValidEntry = record {
      base = ne;
      sized = sized;
      cards = cards_bounds.1;
      map = (fresh 0).0;
      count = (fresh 0).1;
      dirty = sym (count_set-none (Bitmap.init true cards) cards (λ j. (fresh j).2));
      covered = rw ((grow_same t c v k).1) (cards_bounds.0);
    }

    added-Registered : Registered t c owner (true, grown_with)
    added-Registered =
        let r =
          appended-Registered (grow t) c (grow-IsValidTable t c v k array_fits)
            (grow-Tracks t c v k) added added-IsValidEntry (λ j. (fresh j).2) refl
            (rw ((grow_same t c v k).0) absent)
            (rw ((grow_same t c v k).0) (grow_room t c v k array_fits))
            (omega (arith, ap (sum_of cards_of) ((grow_same t c v k).0), cards_bounds.2)) in
        record {
          valid = r.valid;
          tracks = r.tracks;
          cards = λ q j. r.cards q j ∙ grow-card_dirty t c v k q j;
          owners = λ q. ground (arith, r.owners q, grow-is_registered t c v k q);
        }

    -- The three ends of the function for a new owner.
    register_refused :
        (array_granted bits_granted : Bool)
        → ((length t.entries == t.capacity) && not array_granted) ≡ true
        → register_owner array_granted bits_granted t owner owner_size ≡ (false, t)
    unfolding register_owner
    register_refused array_granted bits_granted full = ground (arith, absent)

    register_without_map :
        (array_granted : Bool)
        → ((length t.entries == t.capacity) && not array_granted) ≡ false
        → register_owner array_granted false t owner owner_size ≡ (false, grow t)
    unfolding register_owner
    register_without_map array_granted spare = ground (arith, (fresh 0).3, cards_bounds.1, absent)

    pub register_done :
        (array_granted : Bool)
        → ((length t.entries == t.capacity) && not array_granted) ≡ false
        → register_owner array_granted true t owner owner_size ≡ (true, grown_with)
    unfolding register_owner
    register_done array_granted spare = ground (arith, (fresh 0).1, absent)

    register_new :
        (array_granted bits_granted : Bool)
        → Registered t c owner (register_owner array_granted bits_granted t owner owner_size)
    register_new array_granted bits_granted =
        elim (Bool-cases ((length t.entries == t.capacity) && not array_granted)) [
          | inl full ↦
              rw (register_refused array_granted bits_granted full)
                (unchanged t c v k false owner (λ q. ground arith))
          | inr spare ↦ by_map bits_granted spare
        ]
      where
        by_map :
            (bits_granted : Bool)
            → ((length t.entries == t.capacity) && not array_granted) ≡ false
            → Registered t c owner (register_owner array_granted bits_granted t owner owner_size)
        by_map true spare = rw (register_done array_granted spare) added-Registered
        by_map false spare = rw (register_without_map array_granted spare) (record {
          valid = grow-IsValidTable t c v k array_fits;
          tracks = grow-Tracks t c v k;
          cards = grow-card_dirty t c v k;
          owners = λ q. ground (arith, grow-is_registered t c v k q);
        })

  -- A refused argument, and an owner that is registered already.
  register_null :
      (array_granted bits_granted : Bool)
      → (owner ≡ null) ⊎ (owner_size ≡ 0)
      → register_owner array_granted bits_granted t owner owner_size ≡ (false, t)
  unfolding register_owner
  register_null array_granted bits_granted h = ground arith

  pub register_known :
      (array_granted bits_granted : Bool) (e : CardEntry)
      → owner ≢ null
      → owner_size ≢ 0
      → find_from t.entries owner ≡ some e
      → register_owner array_granted bits_granted t owner owner_size ≡ (true, t)
  unfolding register_owner
  register_known array_granted bits_granted e ne sized found = ground (arith, found)

  pub register_owner-Registered :
      (array_granted bits_granted : Bool)
      → Registered t c owner (register_owner array_granted bits_granted t owner owner_size)
  register_owner-Registered array_granted bits_granted = elim argument_cases [
    | inl bad ↦
        rw (register_null array_granted bits_granted bad)
          (unchanged t c v k false owner (λ q. ground arith))
    | inr (ne, sized) ↦ elim (Option-cases (find_from t.entries owner)) [
      | inl absent ↦ register_new ne sized absent array_granted bits_granted
      | inr (e, found) ↦
          rw (register_known array_granted bits_granted e ne sized found)
            (unchanged t c v k true owner (known e found))
    ]
  ]
    where
      argument_cases : ((owner ≡ null) ⊎ (owner_size ≡ 0)) ⊎ ((owner ≢ null) × (owner_size ≢ 0))
      argument_cases = elim (zero_or_pos owner) [
        | inl z ↦ inl (inl z)
        | inr p ↦ elim (zero_or_pos owner_size) [
          | inl z ↦ inl (inr z)
          | inr q ↦ inr (omega arith, omega arith)
        ]
      ]

      known :
          (e : CardEntry)
          → find_from t.entries owner ≡ some e
          → (q : Ptr) → is_registered t q ≡ ((true && owner == q) || is_registered t q)
      known e found q = unfold is_registered in ground (arith, found, same_find q)
        where
          same_find : (q : Ptr) → owner ≡ q → find_from t.entries owner ≡ find_from t.entries q
          same_find q h = ap (find_from t.entries) h
