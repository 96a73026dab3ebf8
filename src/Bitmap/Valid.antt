-- ===== src/Bitmap/Valid.antt =====
-- When a bitmap is well formed, what its checker decides, and that a test inside the bit count
-- stays inside the buffer (src/core/bitmap.c, src/core/invariants.c).
use xgc.Prelude.{
  ℕ, ◌+◌, ◌/◌, ◌%◌, ◌<◌, ◌≡◌, refl, Bool, true, false, ◌&&◌, arith, ltb, ◌==◌, ◌∙◌, is_none,
  size_mod, get_or, length, Option-cases, inl, inr,
}
use xgc.Bitmap.{Bitmap, zeroed, bytes_of, check_invariants, test}
use xgc.Bitmap.Byte.{bit}

-- The buffer has `byte_count` bytes, which are the bytes that `bit_count` bits need.
pub record IsValid (b : Bitmap) : Type 0 where
  pub fits : b.bit_count + 7 < size_mod
  pub size : b.byte_count ≡ (b.bit_count + 7) / 8
  pub buffer : length (bytes_of b.bits) ≡ b.byte_count
  pub pointer : is_none b.bits ≡ (b.byte_count == 0)
  pub range : (k : ℕ) → get_or (bytes_of b.bits) k 0 < 256

pub zeroed-IsValid : IsValid zeroed
zeroed-IsValid = record {
  fits = omega arith;
  size = refl;
  buffer = refl;
  pointer = refl;
  range = λ k. omega arith;
}

-- The bit at a position, wherever the bit count ends.
abbrev pub raw_bit : Bitmap → ℕ → Bool
raw_bit b j = bit (get_or (bytes_of b.bits) (j / 8) 0) (j % 8)

-- A bit below the count lies in the buffer.
pub index-lt-length :
    (b : Bitmap) (j : ℕ) → IsValid b → j < b.bit_count → j / 8 < length (bytes_of b.bits)
index-lt-length b j v h = omega (arith, v.size, v.buffer)

pub is_none-false : (b : Bitmap) (j : ℕ) → IsValid b → j < b.bit_count → is_none b.bits ≡ false
is_none-false b j v h = v.pointer ∙ zero_test (omega (arith, v.size))
  where
    zero_test : 0 < b.byte_count → (b.byte_count == 0) ≡ false
    zero_test p = ground arith

pub test_lem : (b : Bitmap) (j : ℕ) → IsValid b → test b j ≡ (ltb j b.bit_count && raw_bit b j)
unfolding test
test_lem b j v = elim (Option-cases b.bits) [
  | inl e ↦ ground (arith, v.size, v.pointer)
  | inr (bytes, e) ↦ rw e (ground arith)
]

pub IsValid-check_invariants : {b : Bitmap} → IsValid b → check_invariants b ≡ true
unfolding check_invariants
IsValid-check_invariants {b} v = ground (arith, v.fits, v.size, v.pointer)
