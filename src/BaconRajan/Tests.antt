-- ===== src/BaconRajan/Tests.antt =====
-- A program with the algorithm of src/algo/bacon-rajan: an object of 48 bytes is allocated, and a full
-- collection does not touch it.
use xgc.BaconRajan.{alloc, global_init, collect_full}
use xgc.BaconRajan.Session.{Answers, Admits, Grows}
use xgc.BaconRajan.Session.Calls.{table}
use xgc.BaconRajan.Session.Sound.{Calls-Grows}
use xgc.Object.{Memory, Descriptor}
use xgc.Runtime.{Runtime}
use xgc.Runtime.Allocation.{alloc_typed}
use xgc.Runtime.Collection
use xgc.Runtime.Collection.{count_full}
use xgc.Runtime.Config.{apply_default_config}
use xgc.Runtime.Contract.{validate_contracts}
use xgc.Runtime.Creation.{create, initial_runtime}
use xgc.Runtime.Handles.{runtime_check_invariants}
use xgc.Runtime.Program.{Calls, allocate, full, stop, next}
use xgc.Prelude.{ℕ, ◌≡◌, inl, inr, refl, true, Option, none, some, [], ◌∷◌, Ptr, arith}

abbrev answers : Answers
answers = record { worklist_granted = true; object = 4096 }

abbrev plain : Descriptor
plain = record {
  fixed_size = 48;
  flags = 2;
  kind = 1;
  trace_slots = none;
  trace_slots_range = none;
  has_finalize = true;
}

abbrev nothing : Memory
nothing = record { header = λ p. none; slot = λ s. 0; finalized = [] }

abbrev started : Runtime ℕ
started = initial_runtime none (some (8 ∷ [])) nothing

abbrev runtime_of : Option (Ptr × Runtime ℕ) → Runtime ℕ
runtime_of none = started
runtime_of (some r) = r.1

abbrev allocated : Runtime ℕ
allocated = runtime_of (alloc_typed (table answers) 0 started (some plain) 48 0)

allocated_eq : alloc_typed (table answers) 0 started (some plain) 48 0 ≡ some (4096, allocated)
unfolding alloc_typed alloc
allocated_eq = refl

allocated-Calls : Calls table Admits started allocated
unfolding initial_runtime
allocated-Calls = next stop (
    allocate answers 0 (some plain) 48 0 4096 allocated
      (record { unused = inr refl; small = omega arith; fits = omega arith }) (inl refl)
      allocated_eq)

collected-Calls : Calls table Admits allocated (count_full allocated)
unfolding Collection.collect_full collect_full alloc_typed alloc initial_runtime
collected-Calls = next stop (full answers (count_full allocated) refl)

created_eq :
    create true true none none (table answers) (some (8 ∷ [])) nothing
    ≡ some (table answers, started)
unfolding create initial_runtime validate_contracts global_init
created_eq = refl

Calls-Grows_example :
    Grows allocated (count_full allocated)
    × (runtime_check_invariants (table answers) (count_full allocated) ≡ true)
unfolding apply_default_config
Calls-Grows_example =
    Calls-Grows answers none (some (8 ∷ [])) nothing (table answers) started allocated
      (count_full allocated) (omega arith) created_eq allocated-Calls collected-Calls
