-- ===== src/Runtime/Flags.antt =====
-- The pin flag in the 16 bits of `gc_header::flags` (include/xgc/gc_types.h).
use Prim.Native.Nat.{bit_and, bit_or}
use xgc.Object.{Memory, Header, object_flag_pinned, set_header}
use xgc.Prelude.{ℕ, ◌-◌, ◌%◌, ◌^◌, Bool, not, none, some, ◌==◌, Ptr}

-- `(flags & flag) != 0u`
abbrev pub has_flag : ℕ → ℕ → Bool
has_flag flags flag = not (bit_and flags flag == 0)

-- `(uint16_t)(flags | GC_OBJECT_FLAG_PINNED)`
abbrev pub with_pin : Header → Header
with_pin h = record h { flags = bit_or h.flags object_flag_pinned % 2 ^ 16 }

-- `(uint16_t)(flags & ~GC_OBJECT_FLAG_PINNED)`
abbrev pub without_pin : Header → Header
without_pin h = record h { flags = bit_and h.flags (2 ^ 32 - 1 - object_flag_pinned) % 2 ^ 16 }

-- A write to the header at an address where an object starts.
unfoldable pub update_header : Memory → Ptr → (Header → Header) → Memory
unfolding set_header
update_header m obj f = elim (m.header obj) [ none ↦ m | some h ↦ set_header m obj (some (f h)) ]
