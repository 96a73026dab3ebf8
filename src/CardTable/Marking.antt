-- ===== src/CardTable/Marking.antt =====
-- The marking of one card and of all cards of an entry (src/core/card_table.c).
use xgc.Prelude.{
  ℕ, zero, suc, ◌+◌, ◌≤◌, ◌<◌, ◌≡◌, refl, ◌∙◌, ap, Bool, true, false, ◌||◌, Option, some, arith,
  ltb, ◌==◌, if◌then◌else◌, size_mod, inl, inr, Bool-cases, add_size,
}
use xgc.Bitmap
use xgc.Bitmap.Access.{set-IsValid, test-set, bit_count-set}
use xgc.Bitmap.Count.{count_set, count_set-le, count_set-set}
use xgc.CardTable.{CardEntry, Counters, mark_card, mark_cards}
use xgc.CardTable.Valid.{IsValidEntry, Swapped}

-- The counters have room for every card of the entry.
pub record HasRoom (c : Counters) (e : CardEntry) : Type 0 where
  pub room : c.dirty_cards + e.card_count < size_mod + e.dirty_card_count
  pub order : c.dirty_old_objects ≤ c.dirty_cards

-- What marking does to an entry and to the counters: `P` says which cards it marks.
pub record Marked (g : ℕ) (P : ℕ → Bool) (c : Counters) (e : CardEntry) (c' : Counters)
    (e' : CardEntry) : Type 0 where
  pub swapped : Swapped g c e c' e'
  pub has_room : HasRoom c' e'
  pub tested : (j : ℕ) → Bitmap.test e'.dirty_map j ≡ (P j || Bitmap.test e.dirty_map j)

abbrev pub Outcome : (ℕ → (ℕ → Bool) → Counters → CardEntry → Option Counters × CardEntry → Type 0)
Outcome g P c e r = (c' : Counters) × (e' : CardEntry) × (r ≡ (some c', e')) × Marked g P c e c' e'

module _ (g : ℕ) where
  unmarked :
      (P : ℕ → Bool) (c : Counters) (e : CardEntry)
      → IsValidEntry g e
      → HasRoom c e
      → ((j : ℕ) → Bitmap.test e.dirty_map j ≡ (P j || Bitmap.test e.dirty_map j))
      → Marked g P c e c e
  unmarked P c e v r h = record {
    swapped = record {
      same_base = refl;
      same_count = refl;
      valid = v;
      moved_cards = refl;
      moved_objects = refl;
    };
    has_room = r;
    tested = h;
  }

  module _ (c : Counters) (e : CardEntry) (i : ℕ) (v : IsValidEntry g e) (r : HasRoom c e)
      (h : i < e.card_count) where
    below : i < e.dirty_map.bit_count
    below = omega (arith, v.count)

    abbrev counted : Counters
    counted = record {
      dirty_old_objects =
          if e.dirty_card_count == 0 then add_size c.dirty_old_objects 1 else c.dirty_old_objects;
      dirty_cards = add_size c.dirty_cards 1;
    }

    abbrev dirtied : CardEntry
    dirtied = record e {
      dirty_card_count = add_size e.dirty_card_count 1;
      dirty_map = Bitmap.set e.dirty_map i;
    }

    mark_card-set :
        Bitmap.test e.dirty_map i ≡ false → mark_card (some c) e i ≡ (some counted, dirtied)
    unfolding mark_card
    mark_card-set t = rw (t, mark_card)

    dirty-lt :
        Bitmap.test e.dirty_map i ≡ false
        → count_set (Bitmap.set e.dirty_map i) e.card_count ≡ suc e.dirty_card_count
    dirty-lt t = ground (arith, count_set-set e.dirty_map i e.card_count v.map below, v.dirty)

    one_more : Bitmap.test e.dirty_map i ≡ false → e.dirty_card_count < e.card_count
    one_more t = omega (arith, dirty-lt t, count_set-le (Bitmap.set e.dirty_map i) e.card_count)

    dirtied-IsValidEntry : Bitmap.test e.dirty_map i ≡ false → IsValidEntry g dirtied
    dirtied-IsValidEntry t = record {
      base = v.base;
      sized = v.sized;
      cards = v.cards;
      map = set-IsValid e.dirty_map i v.map below;
      count = bit_count-set e.dirty_map i ∙ v.count;
      dirty = omega (arith, dirty-lt t, one_more t, r.room, v.map.fits, v.count);
      covered = v.covered;
    }

    dirtied-Marked : Bitmap.test e.dirty_map i ≡ false → Marked g (λ j. i == j) c e counted dirtied
    dirtied-Marked t =
        let less = one_more t in
        let small : e.card_count < size_mod = omega (arith, v.map.fits, v.count) in
        record {
          swapped = record {
            same_base = refl;
            same_count = refl;
            valid = dirtied-IsValidEntry t;
            moved_cards = omega (arith, r.room);
            moved_objects = ground (arith, r.room, r.order);
          };
          has_room = record {
            room = omega (arith, r.room);
            order = ground (arith, r.room, r.order);
          };
          tested = test-set e.dirty_map i v.map below;
        }

    pub mark_card-Marked : Outcome g (λ j. i == j) c e (mark_card (some c) e i)
    unfolding mark_card
    mark_card-Marked = elim (Bool-cases (Bitmap.test e.dirty_map i)) [
      | inl t ↦ (c, e, rw (t, mark_card), unmarked (λ j. i == j) c e v r (λ j. already j t))
      | inr t ↦ (counted, dirtied, mark_card-set t, dirtied-Marked t)
    ]
      where
        same_test : (j : ℕ) → i ≡ j → Bitmap.test e.dirty_map i ≡ Bitmap.test e.dirty_map j
        same_test j q = ap (Bitmap.test e.dirty_map) q

        already :
            (j : ℕ)
            → Bitmap.test e.dirty_map i ≡ true
            → Bitmap.test e.dirty_map j ≡ (i == j || Bitmap.test e.dirty_map j)
        already j t = ground (arith, same_test j)

  -- Two markings one after the other.
  then_mark :
      (P Q : ℕ → Bool) (c c' c'' : Counters) (e e' e'' : CardEntry)
      → Marked g P c e c' e'
      → Marked g Q c' e' c'' e''
      → Marked g (λ j. Q j || P j) c e c'' e''
  then_mark P Q c c' c'' e e' e'' m n = record {
    swapped = record {
      same_base = n.swapped.same_base ∙ m.swapped.same_base;
      same_count = n.swapped.same_count ∙ m.swapped.same_count;
      valid = n.swapped.valid;
      moved_cards = omega (arith, m.swapped.moved_cards, n.swapped.moved_cards);
      moved_objects = omega (arith, m.swapped.moved_objects, n.swapped.moved_objects);
    };
    has_room = n.has_room;
    tested = λ j. ground (arith, m.tested j, n.tested j);
  }

  Marked-ext :
      (P Q : ℕ → Bool) {c c' : Counters} {e e' : CardEntry}
      → ((j : ℕ) → P j ≡ Q j)
      → Marked g P c e c' e'
      → Marked g Q c e c' e'
  Marked-ext P Q same m = record {
    swapped = m.swapped;
    has_room = m.has_room;
    tested = λ j. ground (arith, m.tested j, same j);
  }

  mark_cards_step :
      (c : Counters) (e : CardEntry) (n : ℕ) {c' : Counters} {e' : CardEntry}
      → mark_cards (some c) e n ≡ (some c', e')
      → mark_cards (some c) e (suc n) ≡ mark_card (some c') e' n
  unfolding mark_cards
  mark_cards_step c e n h = rw h

  pub mark_cards-Marked :
      (c : Counters) (e : CardEntry) (n : ℕ)
      → IsValidEntry g e
      → HasRoom c e
      → n ≤ e.card_count
      → Outcome g (λ j. ltb j n) c e (mark_cards (some c) e n)
  mark_cards-Marked c e zero v r h =
      (c, e, mark_none, unmarked (λ j. ltb j 0) c e v r (λ j. ground arith))
    where
      mark_none : mark_cards (some c) e 0 ≡ (some c, e)
      mark_none = unfold mark_cards in refl
  mark_cards-Marked c e (suc n) v r h =
      let (c1, e1, eq1, m1) = mark_cards-Marked c e n v r (omega arith) in
      let last : n < e1.card_count = omega (arith, m1.swapped.same_count) in
      let (c2, e2, eq2, m2) = mark_card-Marked c1 e1 n m1.swapped.valid m1.has_room last in
      (
        c2,
        e2,
        mark_cards_step c e n eq1 ∙ eq2,
        Marked-ext (λ j. n == j || ltb j n) (λ j. ltb j (suc n)) (λ j. ground arith)
            (then_mark (λ j. ltb j n) (λ j. n == j) c c1 c2 e e1 e2 m1 m2),
      )
