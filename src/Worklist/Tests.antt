-- ===== src/Worklist/Tests.antt =====
-- Runs of src/core/worklist.c on a full stack of one element.
use xgc.Prelude.{
  ℕ, zero, suc, ◌<◌, ◌≡◌, ◌≢◌, refl, true, false, [], ◌∷◌, arith, ◌==◌, if◌then◌else◌, null, get_or,
}
use xgc.Worklist.{Worklist, push, pop}
use xgc.Worklist.Stack.{IsValid, stack, stack_of, pushed, push_lem, pop_lem}

abbrev full : Worklist
full = record { buffer = 4096 ∷ []; is_allocated = true; top = 1; capacity = 1 }

full-IsValid : IsValid full
full-IsValid = record {
  room = omega arith;
  buffer = refl;
  pointer = refl;
  filled = λ i h. first i h;
}
  where
    first : (i : ℕ) → i < 1 → get_or (4096 ∷ []) i 0 ≢ null
    first zero h = omega arith
    first (suc i) h = absurd (omega arith)

run_push : stack (push true full 8192) ≡ 8192 ∷ 4096 ∷ []
unfolding push stack_of
run_push = refl

run_refused : stack (push false full 8192) ≡ 4096 ∷ []
unfolding push stack_of
run_refused = refl

push_lem_example :
    IsValid (push false full 8192) × (stack (push false full 8192) ≡ pushed false full 8192)
push_lem_example = push_lem false full 8192 full-IsValid

pop_lem_example :
    IsValid (pop full).1
    × (stack full ≡ (if (pop full).0 == null then [] else (pop full).0 ∷ stack (pop full).1))
pop_lem_example = pop_lem full full-IsValid
