-- ===== src/Runtime/PinFlag.antt =====
-- What the two updates of `gc_header::flags` (include/xgc/gc_types.h) do to the pin flag.
use Prim.Native.Nat.{bit_and, bit_or, digits, bit_and-bitwise, bit_or-bitwise, min, max}
use xgc.Object.{Header, object_flag_pinned}
use xgc.Runtime.Flags.{has_flag, with_pin, without_pin}
use xgc.Prelude.{ℕ, zero, suc, ◌/◌, ◌%◌, ◌-◌, ◌^◌, ◌≡◌, refl, true, false, arith}

-- The low digit of the result is that of the low digits.
low-bit_and : (a b : ℕ) → bit_and a b % 2 ≡ min (a % 2) (b % 2)
low-bit_and zero b = omega (arith, bit_and-bitwise 0 b)
low-bit_and (suc a) b = omega (arith, bit_and-bitwise (suc a) b)

low-bit_or : (a b : ℕ) → bit_or a b % 2 ≡ max (a % 2) (b % 2)
low-bit_or zero b = omega (arith, bit_or-bitwise 0 b)
low-bit_or (suc a) b = omega (arith, bit_or-bitwise (suc a) b)

digits-zero : (n a : ℕ) → digits (λ b. zero) min n a 0 ≡ 0
digits-zero zero a = refl
digits-zero (suc n) zero = refl
digits-zero (suc n) (suc a) = omega (arith, digits-zero n (suc a / 2))

-- The test of the pin flag reads the low digit.
bit_and-pinned : (a : ℕ) → bit_and a object_flag_pinned ≡ a % 2
bit_and-pinned zero = omega (arith, bit_and-bitwise 0 1)
bit_and-pinned (suc a) = omega (arith, bit_and-bitwise (suc a) 1, digits-zero a (suc a / 2))

pub pinned-with_pin : (h : Header) → has_flag (with_pin h).flags object_flag_pinned ≡ true
pinned-with_pin h =
    ground (arith, bit_and-pinned (with_pin h).flags, low-bit_or h.flags object_flag_pinned)

pub pinned-without_pin : (h : Header) → has_flag (without_pin h).flags object_flag_pinned ≡ false
pinned-without_pin h = ground (
  arith,
  bit_and-pinned (without_pin h).flags,
  low-bit_and h.flags (2 ^ 32 - 1 - object_flag_pinned),
)
