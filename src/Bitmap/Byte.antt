-- ===== src/Bitmap/Byte.antt =====
-- Single bits of a byte, checked over every byte and every pair of positions.
use Prim.Native.Nat.{bit_and, bit_or}
use xgc.Prelude.{
  ℕ, zero, suc, ◌-◌, ◌%◌, ◌^◌, ◌<◌, ◌≡◌, refl, Bool, true, false, not, ◌&&◌, ◌||◌, arith, ◌==◌,
  if◌then◌else◌,
}

abbrev pub bit : ℕ → ℕ → Bool
bit x j = not (bit_and x (2 ^ j) == 0)

abbrev pub with_bit : ℕ → ℕ → ℕ
with_bit x i = bit_or x (2 ^ i) % 256

abbrev pub without_bit : ℕ → ℕ → ℕ
without_bit x i = bit_and x (255 - 2 ^ i) % 256

abbrev eqb : Bool → Bool → Bool
eqb true b = b
eqb false b = not b

eqb_sound : (a b : Bool) → eqb a b ≡ true → a ≡ b
eqb_sound a b h = ground arith

-- Whether a test passes at every number under the bound, the highest one last.
passes : (ℕ → Bool) → ℕ → Bool
passes t zero = true
passes t (suc top) = if passes t top then t top else false

passes_lem : (t : ℕ → Bool) (bound k : ℕ) → k < bound → passes t bound ≡ true → t k ≡ true
unfolding passes
passes_lem t zero k lt ok = absurd (omega arith)
passes_lem t (suc top) k lt ok = ground (arith, passes_lem t top k)

-- A claim about a byte and two positions, checked at all of them.
abbrev each_byte : (ℕ → ℕ → ℕ → Bool) → Bool
each_byte p = passes (λ x. passes (λ i. passes (λ j. p x i j) 8) 8) 256

each_byte_sound :
    (p : ℕ → ℕ → ℕ → Bool) (x i j : ℕ)
    → each_byte p ≡ true
    → x < 256
    → i < 8
    → j < 8
    → p x i j ≡ true
each_byte_sound p x i j h hx hi hj = passes_lem (p x i) 8 j hj (
    passes_lem (λ k. passes (p x k) 8) 8 i hi
      (passes_lem (λ y. passes (λ k. passes (p y k) 8) 8) 256 x hx h))

with_bit_table : each_byte (λ x i j. eqb (bit (with_bit x i) j) (i == j || bit x j)) ≡ true
unfolding passes
with_bit_table = refl

without_bit_table :
    each_byte (λ x i j. eqb (bit (without_bit x i) j) (not (i == j) && bit x j)) ≡ true
unfolding passes
without_bit_table = refl

pub bit-with_bit :
    (x i j : ℕ) → x < 256 → i < 8 → j < 8 → bit (with_bit x i) j ≡ (i == j || bit x j)
bit-with_bit x i j hx hi hj = eqb_sound _ _ (each_byte_sound _ x i j with_bit_table hx hi hj)

pub bit-without_bit :
    (x i j : ℕ) → x < 256 → i < 8 → j < 8 → bit (without_bit x i) j ≡ (not (i == j) && bit x j)
bit-without_bit x i j hx hi hj = eqb_sound _ _ (each_byte_sound _ x i j without_bit_table hx hi hj)

bit-zero_table : passes (λ j. not (bit 0 j)) 8 ≡ true
unfolding passes
bit-zero_table = refl

pub bit-zero : (j : ℕ) → j < 8 → bit 0 j ≡ false
bit-zero j h = not_true _ (passes_lem (λ k. not (bit 0 k)) 8 j h bit-zero_table)
  where
    not_true : (b : Bool) → not b ≡ true → b ≡ false
    not_true b h = ground arith
