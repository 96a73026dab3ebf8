-- ===== src/CardTable/Entries.antt =====
-- The array of entries as a map from owners: what a write through a found entry and the removal by
-- the last entry do to every look-up and to every sum over the entries (src/core/card_table.c).
use xgc.Prelude.{
  ℕ, ◌+◌, ◌≤◌, ◌≡◌, refl, Option, none, some, List, [], ◌∷◌, arith, ◌==◌, if◌then◌else◌, length,
  All, Ptr, ◌⊎◌, inl, inr, Bool-cases, subst,
}
use xgc.CardTable.{CardEntry, find_from, put_entry}
use xgc.CardTable.Registration.{last_entry, but_last, remove_from}

-- No two entries have one base.
abbrev pub Distinct : List CardEntry → Type 0
Distinct [] = Unit
Distinct (e ∷ es) = (find_from es e.owner_base ≡ none) × Distinct es

unfoldable pub sum_of : (CardEntry → ℕ) → List CardEntry → ℕ
sum_of f [] = 0
sum_of f (e ∷ es) = f e + sum_of f es

abbrev pub at_found : (CardEntry → ℕ) → Option CardEntry → ℕ
at_found f none = 0
at_found f (some e) = f e

-- A found entry has the base that was sought.
pub base_of_found :
    (es : List CardEntry) (p : Ptr) (e : CardEntry) → find_from es p ≡ some e → e.owner_base ≡ p
unfolding find_from
base_of_found [] p e h = cc
base_of_found (x ∷ es) p e h = ground (arith, base_of_found es p e)

found_cases :
    (x : CardEntry) (es : List CardEntry) (p : Ptr) (e : CardEntry)
    → find_from (x ∷ es) p ≡ some e
    → (x ≡ e) ⊎ (find_from es p ≡ some e)
unfolding find_from
found_cases x es p e h = ground arith

not_found : (p : Ptr) (e : CardEntry) → ¬ (find_from [] p ≡ some e)
unfolding find_from
not_found p e h = cc

pub All_of_found :
    (P : CardEntry → Type 0) (es : List CardEntry) (p : Ptr) (e : CardEntry)
    → All P es
    → find_from es p ≡ some e
    → P e
All_of_found P [] p e a h = absurd (not_found p e h)
All_of_found P (x ∷ es) p e a h = elim (found_cases x es p e h) [
  | inl t ↦ subst P t a.0
  | inr t ↦ All_of_found P es p e a.1 t
]

pub sum_of_found-le :
    (f : CardEntry → ℕ) (es : List CardEntry) (p : Ptr) → at_found f (find_from es p) ≤ sum_of f es
unfolding find_from sum_of
sum_of_found-le f [] p = omega arith
sum_of_found-le f (x ∷ es) p = ground (arith, sum_of_found-le f es p)

module _ (p : Ptr) (new : CardEntry) (same : new.owner_base ≡ p) where
  -- A write through a found entry changes that look-up and no other.
  pub find_from-put_entry :
      (es : List CardEntry) (q : Ptr)
      → find_from (put_entry es p new) q ≡ (
          if p == q
          then elim (find_from es p) [ none ↦ none | some _ ↦ some new ]
          else find_from es q)
  unfolding find_from put_entry
  find_from-put_entry [] q = ground arith
  find_from-put_entry (x ∷ es) q = ground (arith, find_from-put_entry es q)

  pub sum_of-put_entry :
      (f : CardEntry → ℕ) (es : List CardEntry) (old : CardEntry)
      → find_from es p ≡ some old
      → sum_of f (put_entry es p new) + f old ≡ sum_of f es + f new
  unfolding find_from put_entry sum_of
  sum_of-put_entry f [] old h = cc
  sum_of-put_entry f (x ∷ es) old h = ground (arith, sum_of-put_entry f es old)

  pub Distinct-put_entry : (es : List CardEntry) → Distinct es → Distinct (put_entry es p new)
  unfolding find_from put_entry
  Distinct-put_entry [] d = tt
  Distinct-put_entry (x ∷ es) d =
      ground (arith, Distinct-put_entry es, find_from-put_entry es x.owner_base)

  pub All-put_entry :
      (P : CardEntry → Type 0) (es : List CardEntry) → All P es → P new → All P (put_entry es p new)
  unfolding put_entry
  All-put_entry P [] a n = tt
  All-put_entry P (x ∷ es) a n = elim (Bool-cases (x.owner_base == p)) [
    | inl t ↦ rw (t, put_entry) (n, a.1)
    | inr t ↦ rw (t, put_entry) (a.0, All-put_entry P es a.1 n)
  ]

pub length-put_entry :
    (es : List CardEntry) (p : Ptr) (new : CardEntry) → length (put_entry es p new) ≡ length es
unfolding put_entry
length-put_entry [] p new = refl
length-put_entry (x ∷ es) p new = ground (arith, length-put_entry es p new)

-- Moving the last entry to the front is a rearrangement.
find_from-last :
    (f : CardEntry) (fs : List CardEntry) (p : Ptr)
    → Distinct (f ∷ fs)
    → find_from (last_entry f fs ∷ but_last f fs) p ≡ find_from (f ∷ fs) p
unfolding find_from last_entry but_last
find_from-last f [] p d = refl
find_from-last f (g ∷ gs) p d = ground (arith, find_from-last g gs p)

Distinct-last :
    (f : CardEntry) (fs : List CardEntry)
    → Distinct (f ∷ fs)
    → Distinct (last_entry f fs ∷ but_last f fs)
unfolding find_from last_entry but_last
Distinct-last f [] d = d
Distinct-last f (g ∷ gs) d = ground (arith, Distinct-last g gs, find_from-last g gs f.owner_base)

sum_of-last :
    (m : CardEntry → ℕ) (f : CardEntry) (fs : List CardEntry)
    → m (last_entry f fs) + sum_of m (but_last f fs) ≡ m f + sum_of m fs
unfolding last_entry but_last sum_of
sum_of-last m f [] = omega arith
sum_of-last m f (g ∷ gs) = omega (arith, sum_of-last m g gs)

All-last :
    (P : CardEntry → Type 0) (f : CardEntry) (fs : List CardEntry)
    → All P (f ∷ fs)
    → All P (last_entry f fs ∷ but_last f fs)
unfolding last_entry but_last
All-last P f [] a = a
All-last P f (g ∷ gs) a = let (l, rest) = All-last P g gs a.1 in (l, (a.0, rest))

length-but_last : (f : CardEntry) (fs : List CardEntry) → length (but_last f fs) ≡ length fs
unfolding but_last
length-but_last f [] = refl
length-but_last f (g ∷ gs) = omega (arith, length-but_last g gs)

module _ (p : Ptr) where
  -- Removing an owner makes it unknown and keeps every other look-up.
  pub find_from-remove_from :
      (es : List CardEntry) (q : Ptr)
      → Distinct es
      → find_from (remove_from es p) q ≡ (if p == q then none else find_from es q)
  unfolding find_from remove_from
  find_from-remove_from [] q d = ground arith
  find_from-remove_from (x ∷ []) q d = ground arith
  find_from-remove_from (x ∷ f ∷ fs) q d =
      ground (arith, find_from-remove_from (f ∷ fs) q, find_from-last f fs q)

  pub Distinct-remove_from : (es : List CardEntry) → Distinct es → Distinct (remove_from es p)
  unfolding find_from remove_from
  Distinct-remove_from [] d = tt
  Distinct-remove_from (x ∷ []) d = ground arith
  Distinct-remove_from (x ∷ f ∷ fs) d = ground (
    arith,
    Distinct-remove_from (f ∷ fs),
    find_from-remove_from (f ∷ fs) x.owner_base,
    Distinct-last f fs,
  )

  pub sum_of-remove_from :
      (m : CardEntry → ℕ) (es : List CardEntry)
      → sum_of m (remove_from es p) + at_found m (find_from es p) ≡ sum_of m es
  unfolding find_from remove_from sum_of
  sum_of-remove_from m [] = refl
  sum_of-remove_from m (x ∷ []) = ground arith
  sum_of-remove_from m (x ∷ f ∷ fs) =
      ground (arith, sum_of-remove_from m (f ∷ fs), sum_of-last m f fs)

  pub All-remove_from :
      (P : CardEntry → Type 0) (es : List CardEntry) → All P es → All P (remove_from es p)
  unfolding remove_from
  All-remove_from P [] a = tt
  All-remove_from P (x ∷ []) a = elim (Bool-cases (x.owner_base == p)) [
    | inl t ↦ rw (t, remove_from) tt
    | inr t ↦ rw (t, remove_from) (a.0, tt)
  ]
  All-remove_from P (x ∷ f ∷ fs) a = elim (Bool-cases (x.owner_base == p)) [
    | inl t ↦ rw (t, remove_from) (All-last P f fs a.1)
    | inr t ↦ rw (t, remove_from) (a.0, All-remove_from P (f ∷ fs) a.1)
  ]

  pub length-remove_from-le : (es : List CardEntry) → length (remove_from es p) ≤ length es
  unfolding remove_from
  length-remove_from-le [] = omega arith
  length-remove_from-le (x ∷ []) = ground arith
  length-remove_from-le (x ∷ f ∷ fs) =
      ground (arith, length-remove_from-le (f ∷ fs), length-but_last f fs)
