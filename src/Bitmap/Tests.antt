-- ===== src/Bitmap/Tests.antt =====
-- Runs of src/core/bitmap.c on a map of twelve bits.
use xgc.Prelude.{List, [], ◌∷◌, ◌≡◌, refl, true, false, ◌&&◌, arith, ltb}
use xgc.Bitmap.{Bitmap, init, test, set, clear, resize}
use xgc.Bitmap.Valid.{IsValid, raw_bit}
use xgc.Bitmap.Access.{set-IsValid, bit_count-set}
use xgc.Bitmap.Refining.{Write, put, take, writes, all_wanted, test-writes}
use xgc.Bitmap.Resize.{init_lem, test-resize, resize_back}

abbrev twelve : Bitmap
twelve = init true 12

twelve-IsValid : IsValid twelve
twelve-IsValid = (init_lem 12 0 (omega arith)).0

twelve_count : twelve.bit_count ≡ 12
twelve_count = (init_lem 12 0 (omega arith)).1

abbrev nine_set : Bitmap
nine_set = set twelve 9

nine_set-IsValid : IsValid nine_set
nine_set-IsValid = set-IsValid twelve 9 twelve-IsValid (omega (arith, twelve_count))

nine_set_count : nine_set.bit_count ≡ 12
nine_set_count = rw (bit_count-set twelve 9) twelve_count

run_set : test (set (set (init true 12) 3) 9) 9 ≡ true
unfolding test set init resize
run_set = refl

run_clear : test (clear (set (init true 12) 9) 9) 9 ≡ false
unfolding test set clear init resize
run_clear = refl

-- Nine is set twice, three is cleared, and a write past the end changes nothing.
abbrev some_writes : List Write
some_writes = put 9 ∷ take 3 ∷ put 12 ∷ put 9 ∷ []

test-writes_example :
    IsValid (writes twelve some_writes)
    × ((writes twelve some_writes).bit_count ≡ twelve.bit_count)
    × (test (writes twelve some_writes) 9 ≡ all_wanted twelve.bit_count (test twelve) some_writes 9)
test-writes_example = test-writes twelve some_writes 9 twelve-IsValid

test-resize_example :
    ((resize true nine_set 40).0 ≡ true)
    × ((resize true nine_set 40).1.bit_count ≡ 40)
    × (test (resize true nine_set 40).1 9 ≡ (ltb 9 40 && raw_bit nine_set 9))
test-resize_example = test-resize nine_set 40 nine_set-IsValid (omega arith) 9

resize_back_example :
    test (resize true (resize true nine_set 9).1 nine_set.bit_count).1 9 ≡ test nine_set 9
resize_back_example =
    resize_back nine_set 9 9 nine_set-IsValid (omega (arith, nine_set_count)) (omega arith)
      (omega (arith, nine_set_count))
