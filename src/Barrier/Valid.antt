-- ===== src/Barrier/Valid.antt =====
-- The invariant of the barrier set, and what each function of src/core/barrier.c does to it and to
-- the dirty cards.
use xgc.CardTable
use xgc.CardTable.{CardTable, CardEntry, Counters, find_from, card_index_for_slot}
use xgc.CardTable.Entries.{sum_of}
use xgc.CardTable.Valid.{IsValidTable, Tracks, cards_of}
use xgc.CardTable.Cards.{card_dirty}
use xgc.CardTable.Dirtying.{slot_card, owner_card, mark_slot-Dirtied, mark_owner-Dirtied}
use xgc.CardTable.Clearing.{clear_owner-Cleaned}
use xgc.CardTable.Growing.{is_registered}
use xgc.CardTable.Registering.{register_owner-Registered}
use xgc.CardTable.Unregistering.{unregister_owner-Unregistered}
use xgc.Barrier.{
  BarrierSet, counters_of, set_init, register_owner, unregister_owner, mark_slot_dirty,
  mark_owner_dirty, clear_owner_dirty,
}
use xgc.Prelude.{
  ℕ, ◌+◌, ◌*◌, ◌<◌, ◌≡◌, refl, Bool, not, ◌&&◌, ◌||◌, Option, none, some, arith, ◌==◌, Ptr,
  size_mod,
}

pub record IsValid (b : BarrierSet) : Type 0 where
  pub table : IsValidTable b.old_to_young
  pub tracks : Tracks b.old_to_young (counters_of b)

abbrev pub dirty : BarrierSet → Ptr → ℕ → Bool
dirty b q j = card_dirty b.old_to_young q j

abbrev pub registered : BarrierSet → Ptr → Bool
registered b q = is_registered b.old_to_young q

-- There is a result, and it satisfies `P`.
abbrev pub Holds : (BarrierSet → Type 0) → Option BarrierSet → Type 0
Holds P none = ⊥
Holds P (some b) = P b

pub Holds-map :
    (P Q : BarrierSet → Type 0) (r : Option BarrierSet)
    → Holds P r
    → ((b : BarrierSet) → P b → Q b)
    → Holds Q r
Holds-map P Q none h f = h
Holds-map P Q (some b) h f = f b h

pub set_init-IsValid :
    (card_granularity : ℕ) → card_granularity < size_mod → IsValid (set_init card_granularity)
unfolding set_init CardTable.init sum_of
set_init-IsValid g h = record {
  table = record {
    granular = ground arith;
    granularity_fits = ground arith;
    room = omega arith;
    pointer = refl;
    entries_valid = tt;
    distinct = tt;
    cards_fit = omega arith;
  };
  tracks = record { objects = refl; cards = refl };
}

module _ (b : BarrierSet) (v : IsValid b) (owner : Ptr) where
  -- In a valid barrier set, marking a slot keeps the invariant; the card of the registered owner
  -- that the slot's index names becomes dirty, and no other card changes.
  pub mark_slot_dirty_lem :
      (slot : Ptr)
      → Holds
          (λ b'.
            IsValid b'
            × ((q : Ptr) (j : ℕ)
                → dirty b' q j ≡ (slot_card b.old_to_young owner slot q j || dirty b q j)))
          (mark_slot_dirty (some b) owner slot)
  unfolding mark_slot_dirty
  mark_slot_dirty_lem slot =
      let (c', t', eq, valid, tracks, cards) =
        mark_slot-Dirtied b.old_to_young (counters_of b) v.table v.tracks owner slot in
      rw eq (record { table = valid; tracks = tracks }, cards)

  -- In a valid barrier set, marking an owner keeps the invariant, makes all its cards dirty and
  -- changes no other.
  pub mark_owner_dirty_lem :
      Holds
        (λ b'.
          IsValid b'
          × ((q : Ptr) (j : ℕ)
              → dirty b' q j ≡ (owner_card b.old_to_young owner q j || dirty b q j)))
        (mark_owner_dirty (some b) owner)
  unfolding mark_owner_dirty
  mark_owner_dirty_lem =
      let (c', t', eq, valid, tracks, cards) =
        mark_owner-Dirtied b.old_to_young (counters_of b) v.table v.tracks owner in
      rw eq (record { table = valid; tracks = tracks }, cards)

  -- In a valid barrier set, clearing an owner keeps the invariant and cleans exactly its own
  -- cards.
  pub clear_owner_dirty_lem :
      Holds
        (λ b'. IsValid b' × ((q : Ptr) (j : ℕ) → dirty b' q j ≡ (not (owner == q) && dirty b q j)))
        (clear_owner_dirty (some b) owner)
  unfolding clear_owner_dirty
  clear_owner_dirty_lem =
      let (c', t', eq, valid, tracks, cards) =
        clear_owner-Cleaned b.old_to_young (counters_of b) v.table v.tracks owner in
      rw eq (record { table = valid; tracks = tracks }, cards)

  -- In a valid barrier set, unregistering keeps the invariant, forgets exactly this owner and
  -- cleans exactly its cards.
  pub unregister_owner_lem :
      Holds
        (λ b'.
          IsValid b'
          × ((q : Ptr) (j : ℕ) → dirty b' q j ≡ (not (owner == q) && dirty b q j))
          × ((q : Ptr) → registered b' q ≡ (not (owner == q) && registered b q)))
        (unregister_owner (some b) owner)
  unfolding unregister_owner
  unregister_owner_lem =
      let u = unregister_owner-Unregistered b.old_to_young (counters_of b) v.table v.tracks owner in
      let (c', t', eq, valid, tracks, cards) = u.cleaned in
      rw eq (record { table = valid; tracks = tracks }, cards, rw eq at u.owners)

  -- In a valid barrier set, if the sizes do not wrap in `size_t` then, whatever memory is granted,
  -- registering keeps the invariant and changes no card; the owner is registered afterwards if the
  -- answer is true, and no other owner changes. If the answer is false, as when memory is refused,
  -- the same owners are registered as before and no card is marked.
  pub register_owner_lem :
      (array_granted bits_granted : Bool) (owner_size : ℕ)
      → b.old_to_young.capacity * 2 < size_mod
      → owner_size + b.old_to_young.card_granularity < size_mod
      → sum_of cards_of b.old_to_young.entries + owner_size + 7 < size_mod
      → let r = register_owner array_granted bits_granted (some b) owner owner_size in
        Holds
          (λ b'.
            IsValid b'
            × ((q : Ptr) (j : ℕ) → dirty b' q j ≡ dirty b q j)
            × ((q : Ptr) → registered b' q ≡ ((r.0 && owner == q) || registered b q)))
          r.1
  unfolding register_owner
  register_owner_lem array_granted bits_granted owner_size f1 f2 f3 =
      let r =
        register_owner-Registered b.old_to_young (counters_of b) v.table v.tracks owner owner_size
          f1 f2 f3 array_granted bits_granted in
      (record { table = r.valid; tracks = r.tracks }, r.cards, r.owners)
