-- ===== src/Bitmap.antt =====
-- The dirty-bit map of src/core/bitmap.c, byte by byte, and its checker in src/core/invariants.c.
-- `bits` is the heap buffer behind the pointer (`none` is NULL) with one number per `uint8_t`.
-- The bitmap itself is passed by value, so the guard `bitmap == NULL` has no counterpart.
pub mod Byte
pub mod Valid
pub mod Access
pub mod Refining
pub mod Count
pub mod Resize
mod Tests
use Prim.Native.Nat.{bit_and, bit_or}
use xgc.Prelude
use xgc.Prelude.{
  ℕ, ◌+◌, ◌-◌, ◌*◌, ◌/◌, ◌%◌, ◌^◌, ◌<◌, ◌≡◌, Bool, true, false, not, ◌&&◌, ◌||◌, Option, none, some,
  List, [], ◌∷◌, ◌++◌, ltb, leb, ◌==◌, if◌then◌else◌, is_none, add_size, get_or, take, replicate,
  length, All,
}

pub record Bitmap : Type 0 where
  pub bits : Option (List ℕ)
  pub bit_count : ℕ
  pub byte_count : ℕ

-- After `memset(bitmap, 0, sizeof(*bitmap))`.
abbrev pub zeroed : Bitmap
zeroed = record { bits = none; bit_count = 0; byte_count = 0 }

-- `1u << (index % 8u)`, a byte.
abbrev pub bit_mask : ℕ → ℕ
bit_mask index = 2 ^ (index % 8)

-- The bytes behind the pointer; there are none behind NULL.
abbrev pub bytes_of : Option (List ℕ) → List ℕ
bytes_of none = []
bytes_of (some bytes) = bytes

-- `realloc(bits, new_count)` where `memset` clears what lies past the old bytes.
abbrev pub realloc_bytes : Option (List ℕ) → ℕ → List ℕ
realloc_bytes bits new_count =
    take new_count (bytes_of bits) ++ replicate (new_count - length (bytes_of bits)) 0

-- `granted` says whether `realloc` returns a buffer.
unfoldable pub resize : Bool → Bitmap → ℕ → Bool × Bitmap
resize granted bitmap bit_count =
    let byte_count = add_size bit_count 7 / 8 in
    if byte_count == 0
    then (true, zeroed)
    else if granted
    then (
      true,
      record {
        bits = some (realloc_bytes bitmap.bits byte_count);
        bit_count = bit_count;
        byte_count = byte_count;
      },
    )
    else (false, bitmap)

unfoldable pub init : Bool → ℕ → Bitmap
init granted bit_count =
    if not (bit_count == 0) then (resize granted zeroed bit_count).1 else zeroed

abbrev pub destroy : Bitmap → Bitmap
destroy bitmap = zeroed

-- `memset(bits, 0, byte_count)`
unfoldable pub clear_all : Bitmap → Bitmap
clear_all bitmap = elim bitmap.bits [
  | none ↦ bitmap
  | some bytes ↦ record bitmap { bits = some (replicate bitmap.byte_count 0) }
]

-- A byte is written back in `bits`.
abbrev pub put_byte : Bitmap → ℕ → ℕ → Bitmap
put_byte bitmap index byte = record bitmap {
  bits = some (Prelude.set (bytes_of bitmap.bits) index byte);
}

unfoldable pub set : Bitmap → ℕ → Bitmap
set bitmap index =
    if is_none bitmap.bits || leb bitmap.bit_count index
    then bitmap
    else put_byte bitmap (index / 8)
        (bit_or (get_or (bytes_of bitmap.bits) (index / 8) 0) (bit_mask index) % 256)

-- `(uint8_t)~m` is `255 - m`.
unfoldable pub clear : Bitmap → ℕ → Bitmap
clear bitmap index =
    if is_none bitmap.bits || leb bitmap.bit_count index
    then bitmap
    else put_byte bitmap (index / 8)
        (bit_and (get_or (bytes_of bitmap.bits) (index / 8) 0) (255 - bit_mask index) % 256)

unfoldable pub test : Bitmap → ℕ → Bool
test bitmap index =
    if is_none bitmap.bits || leb bitmap.bit_count index
    then false
    else not (bit_and (get_or (bytes_of bitmap.bits) (index / 8) 0) (bit_mask index) == 0)

-- `gc_bitmap_check_invariants`; `!=` of two tests is their exclusive or.
unfoldable pub check_invariants : Bitmap → Bool
check_invariants bitmap =
    let expected_byte_count = add_size bitmap.bit_count 7 / 8 in
    if not (bitmap.byte_count == expected_byte_count)
    then false
    else if bitmap.byte_count == 0
    then is_none bitmap.bits
    else not (is_none bitmap.bits)
