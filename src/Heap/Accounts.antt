-- ===== src/Heap/Accounts.antt =====
-- The old-generation account of src/core/heap.c is that of the objects alive: each allocation adds
-- its bytes, each release takes them off.
use xgc.Heap.{
  GcHeap, init, set_young_space, record_young_alloc, reset_young, record_old_alloc, record_old_free,
  check_invariants,
}
use xgc.Prelude.{
  ℕ, suc, ◌+◌, ◌≤◌, ◌<◌, ◌≡◌, ◌≢◌, refl, true, List, [], ◌∷◌, ◌++◌, arith, length, size_mod, Ptr,
  null, length-append,
}

unfoldable pub total : List ℕ → ℕ
total [] = 0
total (n ∷ ns) = n + total ns

total-append : (xs ys : List ℕ) → total (xs ++ ys) ≡ total xs + total ys
unfolding total
total-append [] ys = omega arith
total-append (x ∷ xs) ys = omega (arith, total-append xs ys)

-- The calls that the collectors make, with the sizes of the old objects that are alive. A space is
-- set while it is empty, and a bump allocation fits it.
pub data Event : GcHeap → List ℕ → GcHeap → List ℕ → Type 0 where
  old_alloc :
      {h : GcHeap} {live : List ℕ} (bytes : ℕ)
      → length live + 1 < size_mod
      → total live + bytes < size_mod
      → Event h live (record_old_alloc h bytes) (bytes ∷ live)
  old_free :
      {h : GcHeap} (before after : List ℕ) (bytes : ℕ) (live : List ℕ)
      → live ≡ before ++ bytes ∷ after
      → Event h live (record_old_free h bytes) (before ++ after)
  young_space :
      {h : GcHeap} {live : List ℕ} (base : Ptr) (capacity : ℕ)
      → (base ≢ null → h.young_used ≡ 0)
      → (base ≡ null → capacity ≡ 0)
      → Event h live (set_young_space h base capacity) live
  young_alloc :
      {h : GcHeap} {live : List ℕ} (bytes : ℕ)
      → h.young_used + bytes ≤ h.young_capacity
      → h.young_base ≢ null
      → h.young_capacity < size_mod
      → Event h live (record_young_alloc h bytes) live
  young_reset : {h : GcHeap} {live : List ℕ} → Event h live (reset_young h) live

pub data Run (threshold : ℕ) : GcHeap → List ℕ → Type 0 where
  start : Run threshold (init threshold) []
  next :
      {h h' : GcHeap} {live live' : List ℕ}
      → Run threshold h live
      → Event h live h' live'
      → Run threshold h' live'

-- The account is exact, and the young space is not overrun.
pub record IsBalanced (h : GcHeap) (live : List ℕ) : Type 0 where
  pub count : h.old_object_count ≡ length live
  pub bytes : h.old_object_bytes ≡ total live
  pub young : h.young_used ≤ h.young_capacity
  pub no_space : h.young_base ≡ null → h.young_capacity ≡ 0

freed_total :
    (before after : List ℕ) (bytes : ℕ) (live : List ℕ)
    → live ≡ before ++ bytes ∷ after
    → (total live ≡ total (before ++ after) + bytes)
      × (length live ≡ suc (length (before ++ after)))
unfolding total
freed_total before after bytes live e = rw e (
  omega (arith, total-append before (bytes ∷ after), total-append before after),
  omega (arith, length-append before (bytes ∷ after), length-append before after),
)

pub Event-IsBalanced :
    {h h' : GcHeap} {live live' : List ℕ}
    → Event h live h' live'
    → IsBalanced h live
    → IsBalanced h' live'
unfolding record_old_alloc record_old_free set_young_space record_young_alloc reset_young total
Event-IsBalanced (old_alloc bytes f g) b = ground arith
Event-IsBalanced (old_free before after bytes live e) b =
    ground (arith, freed_total before after bytes live e)
Event-IsBalanced (young_space base capacity z n) b = ground arith
Event-IsBalanced (young_alloc bytes f n s) b = ground arith
Event-IsBalanced young_reset b = ground arith

Run-IsBalanced :
    (threshold : ℕ) {h : GcHeap} {live : List ℕ} → Run threshold h live → IsBalanced h live
unfolding init total
Run-IsBalanced threshold start = ground arith
Run-IsBalanced threshold (next r e) = Event-IsBalanced e (Run-IsBalanced threshold r)

total_of_empty : (live : List ℕ) → length live ≡ 0 → total live ≡ 0
unfolding total
total_of_empty [] h = refl
total_of_empty (n ∷ live) h = absurd (omega arith)

pub IsBalanced-check : (h : GcHeap) (live : List ℕ) → IsBalanced h live → check_invariants h ≡ true
unfolding check_invariants
IsBalanced-check h live b =
    ground (arith, b.count, b.bytes, b.young, b.no_space, total_of_empty live)

-- After any run of the account's calls, where the old sizes do not wrap in `size_t`, a space is
-- set while it is empty and a young allocation fits it, the account holds the number and the bytes
-- of the old objects alive, and the checker accepts the heap.
pub Run-account :
    (threshold : ℕ) (h : GcHeap) (live : List ℕ)
    → Run threshold h live
    → (h.old_object_count ≡ length live)
      × (h.old_object_bytes ≡ total live)
      × (check_invariants h ≡ true)
Run-account threshold h live r =
    let b = Run-IsBalanced threshold r in (b.count, b.bytes, IsBalanced-check h live b)
