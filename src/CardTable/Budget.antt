-- ===== src/CardTable/Budget.antt =====
-- Registrations of a bounded number and size succeed if the memory is granted
-- (src/core/card_table.c).
use xgc.CardTable.{CardEntry, CardTable, Counters, find_from, find_entry, clear_owner}
use xgc.CardTable.Entries.{sum_of, base_of_found, sum_of-put_entry, length-put_entry}
use xgc.CardTable.Growing.{grow_same}
use xgc.CardTable.Owners.{sum_of-append}
use xgc.CardTable.Registering.{added, cards_bounds, register_done, register_known}
use xgc.CardTable.Registration.{register_owner, grow}
use xgc.CardTable.Valid.{IsValidTable, Tracks, cards_of}
use xgc.Bitmap
use xgc.Prelude.{
  ℕ, ◌+◌, ◌*◌, ◌≤◌, ◌<◌, ◌≡◌, ◌≢◌, refl, ◌∙◌, ap, ◌⊎◌, true, false, not, ◌&&◌, some, [], ◌∷◌, arith,
  ◌==◌, Ptr, null, inl, inr, Option-cases, Bool-cases, size_mod, length, length-append,
}

-- A table that `n` registrations of at most `b` bytes may have made of another.
pub record Within (t0 t : CardTable) (n b : ℕ) : Type 0 where
  pub owners : length t.entries ≤ length t0.entries + n
  pub array : t.capacity ≤ t0.capacity + 2 * (length t0.entries + n) + 32
  pub spent : sum_of cards_of t.entries ≤ sum_of cards_of t0.entries + n * b
  pub granularity : t.card_granularity ≡ t0.card_granularity

-- Room for `m` such registrations in `size_t`.
pub record Affords (t0 : CardTable) (m b : ℕ) : Type 0 where
  pub array : (t0.capacity + 2 * (length t0.entries + m) + 32) * 2 < size_mod
  pub spent : sum_of cards_of t0.entries + m * b + b + 7 < size_mod
  pub size : b + t0.card_granularity < size_mod

pub Within-refl : (t : CardTable) (b : ℕ) → Within t t 0 b
Within-refl t b = record {
  owners = omega arith;
  array = omega arith;
  spent = omega arith;
  granularity = refl;
}

pub mul_step : (n b : ℕ) → (n + 1) * b ≡ n * b + b
mul_step n b = grind arith

pub mul_room : (n m b : ℕ) → n < m → n * b + b ≤ m * b
mul_room n m b lt = grind arith

grow-capacity :
    (t : CardTable)
    → t.capacity * 2 < size_mod
    → ((grow t).capacity ≤ t.capacity) ⊎ ((grow t).capacity ≤ 2 * length t.entries + 32)
unfolding grow
grow-capacity t fits = ground arith

module _ (t0 t : CardTable) (c : Counters) (v : IsValidTable t) (k : Tracks t c) (owner : Ptr)
    (size n m b : ℕ) (w : Within t0 t n b) (lt : n < m) (a : Affords t0 m b) (ne : owner ≢ null)
    (sized : size ≢ 0) (small : size ≤ b) where
  pub array_fits : t.capacity * 2 < size_mod
  array_fits = omega (arith, w.array, a.array)

  pub size_fits : size + t.card_granularity < size_mod
  size_fits = omega (arith, a.size, w.granularity)

  pub cards_fit : sum_of cards_of t.entries + size + 7 < size_mod
  cards_fit = omega (arith, w.spent, a.spent, mul_room n m b lt)

  pub register_owner-Within :
      ((register_owner true true t owner size).0 ≡ true)
      × Within t0 (register_owner true true t owner size).1 (n + 1) b
  register_owner-Within = elim (Option-cases (find_from t.entries owner)) [
    | inr (e, found) ↦
        rw
          (register_known t c v k owner size array_fits size_fits cards_fit true true e ne sized
            found)
          (
            refl,
            record {
              owners = omega (arith, w.owners);
              array = omega (arith, w.array);
              spent = omega (arith, w.spent, mul_step n b);
              granularity = w.granularity;
            },
          )
    | inl absent ↦
        let (es, g) = grow_same t c v k in
        let entry = added t c v k owner size array_fits size_fits cards_fit in
        let (_, _, few) =
          cards_bounds t c v k owner size array_fits size_fits cards_fit ne sized absent in
        rw
          (register_done t c v k owner size array_fits size_fits cards_fit ne sized absent true
            spare)
          (
            refl,
            record {
              owners =
                  omega
                    (arith, length-append (grow t).entries (entry ∷ []), ap length es, w.owners);
              array = bound (grow-capacity t array_fits);
              spent = omega (
                arith,
                sum_of-append cards_of (grow t).entries entry,
                ap (sum_of cards_of) es,
                few,
                w.spent,
                mul_step n b,
              );
              granularity = g ∙ w.granularity;
            },
          )
  ]
    where
      bound :
          ((grow t).capacity ≤ t.capacity) ⊎ ((grow t).capacity ≤ 2 * length t.entries + 32)
          → (grow t).capacity ≤ t0.capacity + 2 * (length t0.entries + (n + 1)) + 32
      bound (inl h) = omega (arith, h, w.array)
      bound (inr h) = omega (arith, h, w.owners)

      spare : (length t.entries == t.capacity && not true) ≡ false
      spare = ground arith

-- Clearing an owner keeps the bounds.
pub clear_owner-Within :
    (t0 t : CardTable) (c : Counters) (owner : Ptr) (n b : ℕ)
    → Within t0 t n b
    → Within t0 (clear_owner (some c) t owner).1 n b
unfolding clear_owner find_entry
clear_owner-Within t0 t c owner n b w = elim (Bool-cases (owner == null)) [
  | inl z ↦ rw (z, clear_owner) w
  | inr z ↦ elim (Option-cases (find_from t.entries owner)) [
    | inl off ↦ rw (z, off, clear_owner) w
    | inr (e, found) ↦ elim (Bool-cases (e.dirty_card_count == 0)) [
      | inl d ↦ rw (z, found, d, clear_owner) w
      | inr d ↦
          let new : CardEntry = record e {
            dirty_card_count = 0;
            dirty_map = Bitmap.clear_all e.dirty_map;
          } in
          rw (z, found, d, clear_owner)
            (record {
              owners = omega (arith, length-put_entry t.entries owner new, w.owners);
              array = w.array;
              spent = omega (
                arith,
                sum_of-put_entry owner new (base_of_found t.entries owner e found) cards_of
                    t.entries e found,
                w.spent,
              );
              granularity = w.granularity;
            })
    ]
  ]
]
