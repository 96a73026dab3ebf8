-- ===== src/CardTable/Owners.antt =====
-- An entry added behind the others, and the number of cards of an object
-- (`gc_card_table_register_owner` of src/core/card_table.c).
use native.Mathlib.Nat.{div-lt_iff_lt-mul, lt-div-mul-add}
use xgc.Prelude.{
  ℕ, ◌+◌, ◌-◌, ◌*◌, ◌/◌, ◌≤◌, ◌<◌, ◌≡◌, ◌≢◌, refl, ap, false, none, some, List, [], ◌∷◌, ◌++◌,
  arith, ◌==◌, if◌then◌else◌, Ptr, size_mod, add_size, sub_size, All,
}
use xgc.CardTable.{CardEntry, CardTable, find_from}
use xgc.CardTable.Registration.{card_count_for}
use xgc.CardTable.Entries.{Distinct, sum_of}

-- An entry behind all others.
pub find_from-append :
    (es : List CardEntry) (e : CardEntry) (q : Ptr)
    → find_from es e.owner_base ≡ none
    → find_from (es ++ e ∷ []) q ≡ (if e.owner_base == q then some e else find_from es q)
unfolding find_from
find_from-append [] e q h = refl
find_from-append (x ∷ es) e q h = ground (arith, find_from-append es e q)

pub Distinct-append :
    (es : List CardEntry) (e : CardEntry)
    → Distinct es
    → find_from es e.owner_base ≡ none
    → Distinct (es ++ e ∷ [])
unfolding find_from
Distinct-append [] e d h = (refl, tt)
Distinct-append (x ∷ es) e d h =
    ground (arith, Distinct-append es e, find_from-append es e x.owner_base)

pub sum_of-append :
    (m : CardEntry → ℕ) (es : List CardEntry) (e : CardEntry)
    → sum_of m (es ++ e ∷ []) ≡ sum_of m es + m e
unfolding sum_of
sum_of-append m [] e = omega arith
sum_of-append m (x ∷ es) e = omega (arith, sum_of-append m es e)

pub All-append :
    (P : CardEntry → Type 0) (es : List CardEntry) (e : CardEntry)
    → All P es
    → P e
    → All P (es ++ e ∷ [])
All-append P [] e a p = (p, tt)
All-append P (x ∷ es) e a p = (a.0, All-append P es e a.1 p)

le-mul : (s k : ℕ) → k ≢ 0 → s ≤ s * k
le-mul s k h = grind arith

card_count_for_eq :
    (t : CardTable) (owner_size : ℕ)
    → t.card_granularity ≢ 0
    → owner_size ≢ 0
    → owner_size + t.card_granularity < size_mod
    → (card_count_for t owner_size ≡ (owner_size + t.card_granularity - 1) / t.card_granularity)
      × (card_count_for t owner_size ≢ 0)
unfolding card_count_for
card_count_for_eq t s g n fits =
    let k = t.card_granularity in
    let q = (s + k - 1) / k in
    let nonzero : q ≢ 0 = λ z.
      absurd
        (omega (arith, lt-div-mul-add {a = s + k - 1} {b = k} (omega arith), ap (λ m. m * k) z)) in
    let e : sub_size (add_size s k) 1 ≡ s + k - 1 = omega arith in
    let f : (k == 0) ≡ false = ground arith in rw (card_count_for, f, e) (ground arith)

-- With a size and a granularity that are not 0 and whose sum does not wrap, the cards of an object
-- cover it, there is at least one, and they are no more than its bytes.
pub card_count_for_bounds :
    (t : CardTable) (owner_size : ℕ)
    → t.card_granularity ≢ 0
    → owner_size ≢ 0
    → owner_size + t.card_granularity < size_mod
    → (owner_size ≤ card_count_for t owner_size * t.card_granularity)
      × (card_count_for t owner_size ≢ 0)
      × (card_count_for t owner_size ≤ owner_size)
card_count_for_bounds t s g n fits =
    let k = t.card_granularity in
    let (eq, nonzero) = card_count_for_eq t s g n fits in
    let lo = lt-div-mul-add {a = s + k - 1} {b = k} (omega arith) in
    let small : (s + k - 1) / k < s + 1 =
      (div-lt_iff_lt-mul {k = k} {x = s + k - 1} {y = s + 1} (omega arith)).1
        (omega (arith, le-mul s k g)) in
    (rw eq (omega (arith, lo)), nonzero, rw eq (omega (arith, small)))
