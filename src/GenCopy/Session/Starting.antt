-- ===== src/GenCopy/Session/Starting.antt =====
-- A runtime is created sound (src/core/runtime.c with src/algo/gen_copy_ms/young_copy.c).
use xgc.Barrier
use xgc.Barrier.{set_check_invariants}
use xgc.Barrier.Valid.{set_init-IsValid}
use xgc.CardTable
use xgc.CardTable.{find_from}
use xgc.CardTable.Growing.{is_registered}
use xgc.GenCopy.{GenCopyState}
use xgc.GenCopy.Algorithm.{global_init}
use xgc.GenCopy.Session.{IsSound}
use xgc.GenCopy.Walking.{WholeObjects, finished}
use xgc.GenCopy.Table.{CallAnswers, vtable}
use xgc.Heap
use xgc.MarkSweep.{find_node}
use xgc.MarkSweep.Held.{held_bytes}
use xgc.MarkSweep.Nodes.{known, marked}
use xgc.Object.{Memory}
use xgc.Runtime.{Runtime, GcConfig}
use xgc.Runtime.Contract.{validate_contracts}
use xgc.Runtime.Creation.{create, initial_runtime, config_of}
use xgc.Prelude.{
  ℕ, ◌+◌, subst, ◌<◌, ◌≡◌, ◌≢◌, refl, true, not, Option, none, some, List, [], Ptr, null, arith,
  ◌==◌, size_mod, if◌then◌else◌, ◌*◌,
}

abbrev pub nursery_size : GcConfig → ℕ
nursery_size cfg =
    if not (cfg.gc_young_space_size == 0) then cfg.gc_young_space_size else 4 * 1024 * 1024

module _ (a : CallAnswers) (cfg : Option GcConfig) (roots : Option (List Ptr)) (memory : Memory)
    (state_granted : a.state_granted ≡ true) (space_granted : a.space ≢ null)
    (region_fits : (config_of cfg).gc_region_size < size_mod)
    (nursery_fits : nursery_size (config_of cfg) < size_mod) where
  abbrev plain : Runtime GenCopyState
  plain = initial_runtime cfg roots memory

  abbrev pub first_state : GenCopyState
  first_state = record {
    nursery_space = a.space;
    nursery_capacity = nursery_size (config_of cfg);
    nursery_used = 0;
    old_objects = [];
    forwarded = [];
  }

  abbrev pub first_runtime : Runtime GenCopyState
  first_runtime = record plain {
    heap = Heap.set_young_space plain.heap a.space (nursery_size (config_of cfg));
    algo_state = some first_state;
  }

  pub first-IsSound : IsSound first_runtime first_state
  unfolding initial_runtime Heap.init Heap.set_young_space known marked find_node held_bytes
      is_registered find_from Barrier.set_init CardTable.init
  first-IsSound = record {
    old = record {
      attached = refl;
      worklist = record { size = refl; pointer = refl };
      barriers = set_init-IsValid (config_of cfg).gc_region_size region_fits;
      agrees = record {
        distinct = tt;
        white = λ q. refl;
        tracked = λ q. refl;
        count = refl;
        bytes = refl;
      };
    };
    space = space_granted;
    base = refl;
    capacity = refl;
    used = ground arith;
    room = omega arith;
    fits = nursery_fits;
    outside = λ q on. absurd (ground (arith, on));
    laid =
        subst (λ stop. WholeObjects memory.header stop a.space) {x = a.space} {y = a.space + 0}
          (omega arith) finished;
  }

  pub create_eq : create true true cfg none (vtable a) roots memory ≡ some (vtable a, first_runtime)
  unfolding create validate_contracts global_init initial_runtime
  create_eq = ground (arith, state_granted, space_granted)
