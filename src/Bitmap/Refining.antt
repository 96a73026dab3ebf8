-- ===== src/Bitmap/Refining.antt =====
-- The bit map refines a predicate on bit numbers (src/core/bitmap.c).
use xgc.Bitmap.{Bitmap, test, set, clear, clear_all}
use xgc.Bitmap.Access.{
  bit_count-set, set-IsValid, clear-IsValid, clear_all-IsValid, test-set, test-clear,
  test-clear_all,
}
use xgc.Bitmap.Valid.{IsValid}
use xgc.Prelude.{
  ℕ, ◌<◌, ◌≡◌, refl, sym, ◌∙◌, ap, subst, Bool, false, not, ◌&&◌, ◌||◌, List, [], ◌∷◌, ltb, ◌==◌,
  arith, Bool-cases, inl, inr,
}

-- A write to the map, at any index.
pub data Write : Type 0 where
  put : ℕ → Write
  take : ℕ → Write
  wipe : Write

abbrev pub write : Bitmap → Write → Bitmap
write b (put i) = set b i
write b (take i) = clear b i
write b wipe = clear_all b

unfoldable pub writes : Bitmap → List Write → Bitmap
writes b [] = b
writes b (w ∷ ws) = writes (write b w) ws

-- What a write does to a set of numbers below `n`: an index that is not below `n` changes nothing.
abbrev pub wanted : ℕ → (ℕ → Bool) → Write → ℕ → Bool
wanted n s (put i) j = (ltb i n && i == j) || s j
wanted n s (take i) j = not (ltb i n && i == j) && s j
wanted n s wipe j = false

unfoldable pub all_wanted : ℕ → (ℕ → Bool) → List Write → ℕ → Bool
all_wanted n s [] j = s j
all_wanted n s (w ∷ ws) j = all_wanted n (wanted n s w) ws j

module _ (b : Bitmap) (v : IsValid b) where
  set-out : (i : ℕ) → ltb i b.bit_count ≡ false → set b i ≡ b
  unfolding set
  set-out i h = ground (arith, h)

  clear-out : (i : ℕ) → ltb i b.bit_count ≡ false → clear b i ≡ b
  unfolding clear
  clear-out i h = ground (arith, h)

  bit_count-clear : (i : ℕ) → (clear b i).bit_count ≡ b.bit_count
  unfolding clear
  bit_count-clear i = ground arith

  abbrev Written : Write → Bitmap → Type 0
  Written w c =
      IsValid c
      × (c.bit_count ≡ b.bit_count)
      × ((j : ℕ) → test c j ≡ wanted b.bit_count (test b) w j)

  write-Written : (w : Write) → Written w (write b w)
  write-Written (put i) = elim (Bool-cases (ltb i b.bit_count)) [
    | inl h ↦
        let lt : i < b.bit_count = ground (arith, h) in
        (set-IsValid b i v lt, bit_count-set b i, λ j. test-set b i v lt j ∙ ground (arith, h))
    | inr h ↦ subst (Written (put i)) (sym (set-out i h)) (v, refl, λ j. ground (arith, h))
  ]
  write-Written (take i) = elim (Bool-cases (ltb i b.bit_count)) [
    | inl h ↦
        let lt : i < b.bit_count = ground (arith, h) in
        (clear-IsValid b i v lt, bit_count-clear i, λ j. test-clear b i v lt j ∙ ground (arith, h))
    | inr h ↦ subst (Written (take i)) (sym (clear-out i h)) (v, refl, λ j. ground (arith, h))
  ]
  write-Written wipe =
      (clear_all-IsValid b v, (test-clear_all b v 0).1, λ j. (test-clear_all b v j).0)

all_wanted_ext :
    (n : ℕ) (ws : List Write) (s t : ℕ → Bool) (j : ℕ)
    → ((i : ℕ) → s i ≡ t i)
    → all_wanted n s ws j ≡ all_wanted n t ws j
unfolding all_wanted
all_wanted_ext n [] s t j h = h j
all_wanted_ext n (put i ∷ ws) s t j h =
    all_wanted_ext n ws (wanted n s (put i)) (wanted n t (put i)) j
      (λ k. ap (λ x. (ltb i n && i == k) || x) (h k))
all_wanted_ext n (take i ∷ ws) s t j h =
    all_wanted_ext n ws (wanted n s (take i)) (wanted n t (take i)) j
      (λ k. ap (λ x. not (ltb i n && i == k) && x) (h k))
all_wanted_ext n (wipe ∷ ws) s t j h =
    all_wanted_ext n ws (wanted n s wipe) (wanted n t wipe) j (λ k. refl)

-- A valid map refines the set of its bit numbers: after any list of sets, clears and clears of all
-- bits, the map is valid, it has as many bits as before, and a bit is set exactly if the same writes
-- to the set leave it there; a write at an index past the end changes nothing.
pub test-writes :
    (b : Bitmap) (ws : List Write) (j : ℕ)
    → IsValid b
    → IsValid (writes b ws)
      × ((writes b ws).bit_count ≡ b.bit_count)
      × (test (writes b ws) j ≡ all_wanted b.bit_count (test b) ws j)
unfolding writes all_wanted
test-writes b [] j v = (v, refl, refl)
test-writes b (w ∷ ws) j v =
    let (valid, count, bits) = write-Written b v w in
    let (valid', count', bits') = test-writes (write b w) ws j valid in
    (
      valid',
      count' ∙ count,
      bits'
          ∙ ap (λ n. all_wanted n (test (write b w)) ws j) count
          ∙ all_wanted_ext b.bit_count ws (test (write b w)) (wanted b.bit_count (test b) w) j bits,
    )
