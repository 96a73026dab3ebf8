-- ===== src/Bitmap/Resize.antt =====
-- What `gc_bitmap_resize`, `gc_bitmap_init` and `gc_bitmap_destroy` do to the bits
-- (src/core/bitmap.c).
use xgc.Prelude.{
  ℕ, zero, suc, [], ◌∷◌, ◌*◌, ◌+◌, ◌-◌, ◌/◌, ◌%◌, ◌<◌, ◌≤◌, ◌≡◌, refl, ◌∙◌, ap, sym, Bool, true,
  false, ◌&&◌, Option, some, arith, ltb, ◌==◌, if◌then◌else◌, add_size, size_mod, get_or, take,
  length, inl, inr, length-append, length-replicate, get_or-replicate, replicate, List, ◌++◌,
  zero_or_pos, get_or-out,
}
use xgc.Bitmap.{Bitmap, zeroed, bytes_of, test, resize, init, realloc_bytes}
use xgc.Bitmap.Byte.{bit, bit-zero}
use xgc.Bitmap.Valid.{IsValid, raw_bit, zeroed-IsValid, test_lem}

-- The reallocated buffer: its length, and each byte of it.
length-take_min : (n : ℕ) (xs : List ℕ) → length (take n xs) + (n - length xs) ≡ n
length-take_min zero xs = omega arith
length-take_min (suc n) [] = omega arith
length-take_min (suc n) (x ∷ xs) = omega (arith, length-take_min n xs)

length-realloc_bytes : (bits : Option (List ℕ)) (n : ℕ) → length (realloc_bytes bits n) ≡ n
length-realloc_bytes bits n =
    let xs = bytes_of bits in
    omega (
      arith,
      length-append (take n xs) (replicate (n - length xs) 0),
      length-replicate {A = ℕ} (n - length xs) 0,
      length-take_min n xs,
    )

get_or-pad :
    (xs : List ℕ) (n m k : ℕ)
    → get_or (take n xs ++ replicate m 0) k 0 ≡ (if ltb k n then get_or xs k 0 else 0)
get_or-pad xs zero m k = rw (get_or-replicate {A = ℕ} m 0 k) (ground arith)
get_or-pad [] (suc n) m k = rw (get_or-replicate {A = ℕ} m 0 k) (ground arith)
get_or-pad (x ∷ xs) (suc n) m zero = ground arith
get_or-pad (x ∷ xs) (suc n) m (suc k) = ground (arith, get_or-pad xs n m k)

get_or-realloc_bytes :
    (bits : Option (List ℕ)) (n k : ℕ)
    → get_or (realloc_bytes bits n) k 0 ≡ (if ltb k n then get_or (bytes_of bits) k 0 else 0)
get_or-realloc_bytes bits n k = get_or-pad (bytes_of bits) n (n - length (bytes_of bits)) k

module _ (b : Bitmap) (n : ℕ) (v : IsValid b) (fits : n + 7 < size_mod) where
  abbrev grown : Bitmap
  grown = record {
    bits = some (realloc_bytes b.bits ((n + 7) / 8));
    bit_count = n;
    byte_count = (n + 7) / 8;
  }

  resize_some : 0 < n → resize true b n ≡ (true, grown)
  unfolding resize
  resize_some pos =
      let e : add_size n 7 ≡ n + 7 = omega arith in
      let ne : ((n + 7) / 8 == 0) ≡ false = ground arith in rw (e, resize) (rw ne)

  grown-IsValid : 0 < n → IsValid grown
  grown-IsValid pos = record {
    fits = fits;
    size = refl;
    buffer = length-realloc_bytes b.bits ((n + 7) / 8);
    pointer = ground arith;
    range = λ k. ground (arith, get_or-realloc_bytes b.bits ((n + 7) / 8) k, v.range k);
  }

  resize_zero : (granted : Bool) → n ≡ 0 → resize granted b n ≡ (true, zeroed)
  unfolding resize
  resize_zero granted e = rw (e, resize)

  -- A refused resize reports failure and changes nothing, unless no byte is wanted.
  pub resize_refused : 0 < n → resize false b n ≡ (false, b)
  unfolding resize
  resize_refused pos =
      let e : add_size n 7 ≡ n + 7 = omega arith in
      let ne : ((n + 7) / 8 == 0) ≡ false = ground arith in rw (e, resize) (rw ne)

  -- However the allocation ends, the map is well formed afterwards.
  pub resize-IsValid : (granted : Bool) → IsValid (resize granted b n).1
  resize-IsValid granted = elim (zero_or_pos n) [
    | inl e ↦ rw (resize_zero granted e) zeroed-IsValid
    | inr pos ↦ by_grant pos granted
  ]
    where
      by_grant : 0 < n → (granted : Bool) → IsValid (resize granted b n).1
      by_grant pos true = rw (resize_some pos) (grown-IsValid pos)
      by_grant pos false = rw (resize_refused pos) v

  grown-raw_bit : (j : ℕ) → j / 8 < (n + 7) / 8 → raw_bit grown j ≡ raw_bit b j
  grown-raw_bit j h =
      ap (λ byte. bit byte (j % 8)) (get_or-realloc_bytes b.bits ((n + 7) / 8) (j / 8) ∙ below h)
    where
      below :
          j / 8 < (n + 7) / 8
          → (if ltb (j / 8) ((n + 7) / 8) then get_or (bytes_of b.bits) (j / 8) 0 else 0)
            ≡ get_or (bytes_of b.bits) (j / 8) 0
      below p = ground arith

  -- In a valid map, with a new count that does not wrap, a granted resize succeeds with the new
  -- count, and a bit below it is the bit that the old buffer held at that place; the others are
  -- clear.
  pub test-resize :
      (j : ℕ)
      → ((resize true b n).0 ≡ true)
        × ((resize true b n).1.bit_count ≡ n)
        × (test (resize true b n).1 j ≡ (ltb j n && raw_bit b j))
  test-resize j = elim (zero_or_pos n) [
    | inl e ↦ rw (resize_zero true e) (refl, sym e, test_lem zeroed j zeroed-IsValid ∙ ground arith)
    | inr pos ↦
        rw (resize_some pos)
          (refl, refl, test_lem grown j (grown-IsValid pos) ∙ ground (arith, grown-raw_bit j))
  ]

module _ (b : Bitmap) (v : IsValid b) where
  pub raw_bit-past : (j : ℕ) → 8 * b.byte_count ≤ j → raw_bit b j ≡ false
  raw_bit-past j h =
      rw (get_or-out (bytes_of b.bits) (j / 8) 0 (omega (arith, v.buffer)))
        (bit-zero (j % 8) (omega arith))

init_eq : (granted : Bool) (n : ℕ) → 0 < n → init granted n ≡ (resize granted zeroed n).1
unfolding init
init_eq granted n pos = ground arith

init_zero : (granted : Bool) (n : ℕ) → n ≡ 0 → init granted n ≡ zeroed
unfolding init
init_zero granted n e = rw (e, init)

-- With a count that does not wrap a fresh map is well formed, has its count and no bit set, and a
-- failed allocation leaves it empty.
pub init_lem :
    (n j : ℕ)
    → n + 7 < size_mod
    → IsValid (init true n)
      × ((init true n).bit_count ≡ n)
      × (test (init true n) j ≡ false)
      × (init false n ≡ zeroed)
init_lem n j fits = elim (zero_or_pos n) [
  | inl e ↦
      rw (init_zero true n e, init_zero false n e)
        (zeroed-IsValid, sym e, test_lem zeroed j zeroed-IsValid ∙ ground arith, refl)
  | inr pos ↦
      let (_, count, tested) = test-resize zeroed n zeroed-IsValid fits j in
      rw (init_eq true n pos, init_eq false n pos)
        (
          resize-IsValid zeroed n zeroed-IsValid fits true,
          count,
          tested ∙ rw (bit-zero (j % 8) (omega arith)) (ground arith),
          ap (λ r. r.1) (resize_refused zeroed n zeroed-IsValid fits pos),
        )
]

-- In a valid map, shrinking to a count other than 0 and growing again within the same last byte,
-- both granted, brings back the bits that the shrink had dropped: they are not cleared.
pub resize_back :
    (b : Bitmap) (n j : ℕ)
    → IsValid b
    → n ≤ b.bit_count
    → 0 < n
    → (n + 7) / 8 ≡ (b.bit_count + 7) / 8
    → test (resize true (resize true b n).1 b.bit_count).1 j ≡ test b j
resize_back b n j v le pos same =
    let fits : n + 7 < size_mod = omega (arith, v.fits) in
    let raw = λ (h : j < b.bit_count). grown-raw_bit b n v fits j (omega arith) in
    rw (resize_some b n v fits pos) (
      (test-resize (grown b n v fits) b.bit_count (grown-IsValid b n v fits pos) v.fits j).2
      ∙ below (raw_bit (grown b n v fits) j) (raw_bit b j) raw
      ∙ sym (test_lem b j v))
  where
    below :
        (x y : Bool)
        → (j < b.bit_count → x ≡ y)
        → (ltb j b.bit_count && x) ≡ (ltb j b.bit_count && y)
    below x y h = ground arith
