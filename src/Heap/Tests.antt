-- ===== src/Heap/Tests.antt =====
-- A run of the accounts of src/core/heap.c.
use xgc.Prelude.{ℕ, ◌≡◌, refl, true, List, [], ◌∷◌, arith, length}
use xgc.Heap.{
  GcHeap, init, set_young_space, record_young_alloc, record_old_alloc, record_old_free,
  check_invariants,
}
use xgc.Heap.Accounts.{
  Run, start, next, old_alloc, old_free, young_space, young_alloc, total, Run-account,
}

-- A nursery, two old objects, a young one, and the first old object freed.
abbrev worked : GcHeap
worked =
    record_old_free
      (record_young_alloc
        (record_old_alloc (record_old_alloc (set_young_space (init 32768) 65536 4096) 48) 64) 32)
      48

abbrev alive : List ℕ
alive = 64 ∷ []

worked-Run : Run 32768 worked alive
unfolding init set_young_space record_young_alloc record_old_alloc total
worked-Run =
    next
      (next
        (next
          (next (next start (young_space 65536 4096 (λ h. refl) (λ h. absurd (omega arith))))
            (old_alloc 48 (omega arith) (omega arith)))
          (old_alloc 64 (omega arith) (omega arith)))
        (young_alloc 32 (omega arith) (omega arith) (omega arith)))
      (old_free (64 ∷ []) [] 48 (64 ∷ 48 ∷ []) refl)

Run-account_example :
    (worked.old_object_count ≡ length alive)
    × (worked.old_object_bytes ≡ total alive)
    × (check_invariants worked ≡ true)
Run-account_example = Run-account 32768 worked alive worked-Run
