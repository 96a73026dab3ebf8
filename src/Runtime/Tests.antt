-- ===== src/Runtime/Tests.antt =====
-- Runs of src/core/runtime.c and src/core/reclaim.c.
use xgc.Barrier.{set_init}
use xgc.Heap
use xgc.Object.{Descriptor}
use xgc.Prelude.{
  ℕ, ◌≡◌, ◌↔◌, ◌<◌, inr, size_mod, refl, true, false, none, some, [], ◌∷◌, arith, ◌==◌,
  if◌then◌else◌,
}
use xgc.Runtime.{Runtime, Vtable}
use xgc.Runtime.Config.{apply_default_config, config_init_default}
use xgc.Runtime.Contract.{validate_contracts, Honours, validate_contracts_iff}
use xgc.Runtime.Freeing.{Reclaimed, reclaim_object-Reclaimed}
use xgc.Runtime.Created.{IsCreated, create-IsCreated}
use xgc.Runtime.Creation.{create, config_of}
use xgc.Runtime.Reclaim.{reclaim_object}

abbrev typed : Descriptor
typed = record {
  fixed_size = 48;
  flags = 2;
  kind = 1;
  trace_slots = none;
  trace_slots_range = none;
  has_finalize = true;
}

-- A runtime with one object, without algorithm state.
abbrev running : Runtime ℕ
running = record {
  cfg = config_init_default;
  heap = Heap.init 32768;
  barriers = set_init 256;
  stats = record {
    total_allocated = 48;
    peak_allocated = 48;
    minor_collections = 0;
    major_collections = 0;
    full_collections = 0;
  };
  algo_state = none;
  handles = [];
  worklist_data = [];
  worklist_allocated = false;
  worklist_capacity = 0;
  gc_state = 0;
  scan_roots = none;
  memory = record {
    header = λ p.
        if p == 4096
        then some (record { desc = some typed; size = 48; flags = 0; kind = 1 })
        else none;
    slot = λ p. 0;
    finalized = [];
  };
}

-- An algorithm that announces a write barrier and has none.
abbrev careless : Vtable ℕ
careless = record {
  has_name = true;
  caps = record {
    supports_moving = false;
    supports_compaction = false;
    supports_generations = false;
    requires_write_barrier = true;
    requires_read_barrier = false;
    supports_concurrent_mark = false;
    supports_concurrent_relocate = false;
    provides_deterministic_release = false;
  };
  global_init = none;
  global_destroy = none;
  thread_init = none;
  thread_destroy = none;
  alloc = some (λ rt desc size flags. some (0, rt));
  post_alloc = none;
  write_barrier = none;
  read_barrier = none;
  collect_minor = none;
  collect_major = none;
  collect_full = some (λ rt. some rt);
  pin = none;
  unpin = none;
}

run_validate : validate_contracts (some careless) none ≡ false
unfolding validate_contracts
run_validate = refl

run_finalized : (reclaim_object running 4096).memory.finalized ≡ 4096 ∷ []
unfolding reclaim_object
run_finalized = refl

validate_contracts_iff_example : (validate_contracts (some careless) none ≡ true) ↔ Honours careless
validate_contracts_iff_example = validate_contracts_iff careless none

reclaim_object-Reclaimed_example : Reclaimed running 4096 (reclaim_object running 4096)
reclaim_object-Reclaimed_example = reclaim_object-Reclaimed running 4096 (omega arith)

-- An algorithm that has what it announces.
abbrev bare : Vtable ℕ
bare = record careless {
  caps = record (careless.caps) { requires_write_barrier = false };
  global_init = some (λ rt cfg. record rt { algo_state = some 7 });
}

create-IsCreated_example :
    (((r : Vtable ℕ × Runtime ℕ) × (create true true none none bare none running.memory ≡ some r))
      ↔ ((true ≡ true) × (true ≡ true) × Honours bare))
    × ((r : Vtable ℕ × Runtime ℕ)
        → create true true none none bare none running.memory ≡ some r
        → IsCreated bare none none running.memory r)
create-IsCreated_example =
    create-IsCreated true true none none bare bare none running.memory region_fits
      (inr (refl, refl))
  where
    region_fits : (config_of none).gc_region_size < size_mod
    region_fits = unfold apply_default_config in omega arith
