-- ===== src/Bitmap/Access.antt =====
-- What `gc_bitmap_set`, `gc_bitmap_clear`, `gc_bitmap_clear_all` and `gc_bitmap_init` do to every
-- bit (src/core/bitmap.c).
use xgc.Prelude.{
  ℕ, ◌/◌, ◌%◌, ◌<◌, ◌≡◌, refl, ◌∙◌, ap, sym, Bool, true, false, not, ◌&&◌, ◌||◌, arith, ltb, ◌==◌,
  if◌then◌else◌, get_or, Option-cases, inl, inr, length-set, get_or-set, length-replicate,
  get_or-replicate, replicate,
}
use xgc.Bitmap.{Bitmap, bytes_of, test, set, clear, clear_all, put_byte}
use xgc.Bitmap.Byte.{bit, with_bit, without_bit, bit-with_bit, bit-without_bit, bit-zero}
use xgc.Bitmap.Valid.{IsValid, raw_bit, index-lt-length, is_none-false, test_lem}

pub bit_count-set : (b : Bitmap) (i : ℕ) → (set b i).bit_count ≡ b.bit_count
unfolding set
bit_count-set b i = ground arith

-- The bits of a byte and the bytes of a buffer, as positions of the map.
merge_or :
    (i j n : ℕ) (old raw new put : Bool)
    → i < n
    → new ≡ (i % 8 == j % 8 || old)
    → put ≡ (if i / 8 == j / 8 then new else raw)
    → (i / 8 ≡ j / 8 → old ≡ raw)
    → (ltb j n && put) ≡ (i == j || (ltb j n && raw))
merge_or i j n old raw new put h e p same = ground arith

merge_and :
    (i j n : ℕ) (old raw new put : Bool)
    → i < n
    → new ≡ (not (i % 8 == j % 8) && old)
    → put ≡ (if i / 8 == j / 8 then new else raw)
    → (i / 8 ≡ j / 8 → old ≡ raw)
    → (ltb j n && put) ≡ (not (i == j) && (ltb j n && raw))
merge_and i j n old raw new put h e p same = ground arith

module _ (b : Bitmap) (i : ℕ) (v : IsValid b) (h : i < b.bit_count) where
  set_eq : set b i ≡ put_byte b (i / 8) (with_bit (get_or (bytes_of b.bits) (i / 8) 0) (i % 8))
  unfolding set
  set_eq = ground (arith, is_none-false b i v h)

  clear_eq :
      clear b i ≡ put_byte b (i / 8) (without_bit (get_or (bytes_of b.bits) (i / 8) 0) (i % 8))
  unfolding clear
  clear_eq = ground (arith, is_none-false b i v h)

  put_byte-IsValid : (x : ℕ) → x < 256 → IsValid (put_byte b (i / 8) x)
  put_byte-IsValid x small = record {
    fits = v.fits;
    size = v.size;
    buffer = length-set (bytes_of b.bits) (i / 8) x ∙ v.buffer;
    pointer = zero_test (omega (arith, v.size));
    range = λ k.
        ground
          (arith, get_or-set (bytes_of b.bits) (i / 8) k x 0 (index-lt-length b i v h), v.range k);
  }
    where
      zero_test : 0 < b.byte_count → false ≡ (b.byte_count == 0)
      zero_test p = ground arith

  put_byte-raw_bit :
      (x j : ℕ)
      → raw_bit (put_byte b (i / 8) x) j ≡ (if i / 8 == j / 8 then bit x (j % 8) else raw_bit b j)
  put_byte-raw_bit x j =
      ap (λ byte. bit byte (j % 8))
        (get_or-set (bytes_of b.bits) (i / 8) (j / 8) x 0 (index-lt-length b i v h))
      ∙ if_ap (i / 8 == j / 8)
    where
      if_ap :
          (t : Bool)
          → bit (if t then x else get_or (bytes_of b.bits) (j / 8) 0) (j % 8)
            ≡ (if t then bit x (j % 8) else raw_bit b j)
      if_ap true = refl
      if_ap false = refl

  pub set-IsValid : IsValid (set b i)
  set-IsValid = rw set_eq (put_byte-IsValid _ (omega arith))

  pub clear-IsValid : IsValid (clear b i)
  clear-IsValid = rw clear_eq (put_byte-IsValid _ (omega arith))

  -- In a valid map, setting a bit below the count sets that bit and leaves every other bit as it
  -- was.
  pub test-set : (j : ℕ) → test (set b i) j ≡ (i == j || test b j)
  test-set j =
      let x = get_or (bytes_of b.bits) (i / 8) 0 in
      test_lem (set b i) j set-IsValid
      ∙ rw set_eq (
          merge_or i j b.bit_count (bit x (j % 8)) (raw_bit b j) (bit (with_bit x (i % 8)) (j % 8))
            (raw_bit (put_byte b (i / 8) (with_bit x (i % 8))) j) h
            (bit-with_bit x (i % 8) (j % 8) (v.range (i / 8)) (omega arith) (omega arith))
            (put_byte-raw_bit (with_bit x (i % 8)) j)
            (λ e. ap (λ k. bit (get_or (bytes_of b.bits) k 0) (j % 8)) e)
          ∙ ap (λ t. i == j || t) (sym (test_lem b j v)))

  -- In a valid map, clearing a bit below the count clears that bit and leaves every other bit as
  -- it was.
  pub test-clear : (j : ℕ) → test (clear b i) j ≡ (not (i == j) && test b j)
  test-clear j =
      let x = get_or (bytes_of b.bits) (i / 8) 0 in
      test_lem (clear b i) j clear-IsValid
      ∙ rw clear_eq (
          merge_and i j b.bit_count (bit x (j % 8)) (raw_bit b j)
            (bit (without_bit x (i % 8)) (j % 8))
            (raw_bit (put_byte b (i / 8) (without_bit x (i % 8))) j) h
            (bit-without_bit x (i % 8) (j % 8) (v.range (i / 8)) (omega arith) (omega arith))
            (put_byte-raw_bit (without_bit x (i % 8)) j)
            (λ e. ap (λ k. bit (get_or (bytes_of b.bits) k 0) (j % 8)) e)
          ∙ ap (λ t. not (i == j) && t) (sym (test_lem b j v)))

module _ (b : Bitmap) (v : IsValid b) where
  zero_bytes : (n j : ℕ) → bit (get_or (replicate n 0) (j / 8) 0) (j % 8) ≡ false
  zero_bytes n j = rw (get_or-replicate {A = ℕ} n 0 (j / 8)) (bit-zero (j % 8) (omega arith))

  pub clear_all-IsValid : IsValid (clear_all b)
  unfolding clear_all
  clear_all-IsValid = elim (Option-cases b.bits) [
    | inl e ↦ rw (e, clear_all) v
    | inr (bytes, e) ↦
        rw (e, clear_all)
          (record {
            fits = v.fits;
            size = v.size;
            buffer = length-replicate b.byte_count 0;
            pointer = sym (rw (← v.pointer) (rw e));
            range = λ k. rw (get_or-replicate {A = ℕ} b.byte_count 0 k) (omega arith);
          })
  ]

  clear_all-raw_bit :
      (j : ℕ) → (raw_bit (clear_all b) j ≡ false) × ((clear_all b).bit_count ≡ b.bit_count)
  unfolding clear_all
  clear_all-raw_bit j = elim (Option-cases b.bits) [
    | inl e ↦ rw (e, clear_all) (rw e (bit-zero (j % 8) (omega arith)), refl)
    | inr (bytes, e) ↦ rw (e, clear_all) (zero_bytes b.byte_count j, refl)
  ]

  -- After a clear of all bits of a valid map none is set, and their number is as before.
  pub test-clear_all :
      (j : ℕ) → (test (clear_all b) j ≡ false) × ((clear_all b).bit_count ≡ b.bit_count)
  test-clear_all j =
      let (raw, count) = clear_all-raw_bit j in
      (test_lem (clear_all b) j clear_all-IsValid ∙ rw raw (and_false _), count)
    where
      and_false : (t : Bool) → (t && false) ≡ false
      and_false t = ground arith
