-- ===== src/Bitmap/Count.antt =====
-- The number of set bits below a bound, as the loops of src/core/card_table.c and
-- src/core/invariants.c count them.
use xgc.Prelude.{
  ℕ, zero, suc, ◌+◌, ◌<◌, ◌≤◌, ◌≡◌, refl, true, false, not, ◌&&◌, arith, ltb, if◌then◌else◌,
  Bool-cases, inl, inr,
}
use xgc.Bitmap.{Bitmap, test, set}
use xgc.Bitmap.Valid.{IsValid}
use xgc.Bitmap.Access.{test-set}

-- The counter after the rounds 0, …, n - 1.
unfoldable pub count_set : Bitmap → ℕ → ℕ
count_set b zero = 0
count_set b (suc n) = count_set b n + (if test b n then 1 else 0)

pub count_set-le : (b : Bitmap) (n : ℕ) → count_set b n ≤ n
unfolding count_set
count_set-le b zero = omega arith
count_set-le b (suc n) = ground (arith, count_set-le b n)

pub count_set-pos : (b : Bitmap) (n i : ℕ) → i < n → test b i ≡ true → 0 < count_set b n
unfolding count_set
count_set-pos b zero i h t = absurd (omega arith)
count_set-pos b (suc n) i h t = ground (arith, count_set-pos b n i)

-- Equal tests, equal counts.
pub count_set_ext :
    (b c : Bitmap) (n : ℕ) → ((i : ℕ) → test b i ≡ test c i) → count_set b n ≡ count_set c n
unfolding count_set
count_set_ext b c zero h = refl
count_set_ext b c (suc n) h = ground (arith, count_set_ext b c n h, h n)

pub count_set-none : (b : Bitmap) (n : ℕ) → ((i : ℕ) → test b i ≡ false) → count_set b n ≡ 0
unfolding count_set
count_set-none b zero h = refl
count_set-none b (suc n) h = ground (arith, count_set-none b n h, h n)

-- A count of zero is a map with no set bit below the bound.
pub count_set-zero : (b : Bitmap) (n i : ℕ) → count_set b n ≡ 0 → i < n → test b i ≡ false
unfolding count_set
count_set-zero b zero i e h = absurd (omega arith)
count_set-zero b (suc n) i e h = ground (arith, count_set-zero b n i)

-- Setting a bit raises the count by one if the bit was clear and counted.
pub count_set-set :
    (b : Bitmap) (i n : ℕ)
    → IsValid b
    → i < b.bit_count
    → count_set (set b i) n ≡ count_set b n + (if ltb i n && not (test b i) then 1 else 0)
unfolding count_set
count_set-set b i zero v h = ground arith
count_set-set b i (suc n) v h = ground (arith, count_set-set b i n v h, test-set b i v h n)

-- A positive count has a set bit below the bound.
pub count_set-some :
    (b : Bitmap) (n : ℕ) → 0 < count_set b n → (i : ℕ) × (i < n) × (test b i ≡ true)
unfolding count_set
count_set-some b zero h = absurd (omega arith)
count_set-some b (suc n) h = elim (Bool-cases (test b n)) [
  | inl t ↦ (n, omega arith, t)
  | inr t ↦ let (i, lt, set) = count_set-some b n (ground (arith, h, t)) in (i, omega arith, set)
]
