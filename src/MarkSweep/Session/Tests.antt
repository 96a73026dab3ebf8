-- ===== src/MarkSweep/Session/Tests.antt =====
-- A short program: the runtime is created, an object of 48 bytes allocated and a handle taken on it
-- (src/core/runtime.c with src/algo/marksweep/ms.c).
use xgc.MarkSweep.{MarkSweepState}
use xgc.MarkSweep.Algorithm.{Answers, vtable, alloc, pin, initial_header, global_init}
use xgc.MarkSweep.Held.{held_bytes}
use xgc.MarkSweep.Nodes.{known}
use xgc.MarkSweep.Session.{Session, created, called, allocate, acquire}
use xgc.Runtime.Program.{is_object}
use xgc.MarkSweep.Session.Sound.{Session-check}
use xgc.MarkSweep.Session.Surviving.{both_held, one_released, Session-target, release-acquire}
use xgc.Object.{Memory, Header, Descriptor, object_flag_pinned, set_header, calloc_object}
use xgc.Runtime.{Runtime}
use xgc.Runtime.Allocation.{alloc_typed, filled}
use xgc.Runtime.Collection.{collect_full}
use xgc.Runtime.Config.{apply_default_config}
use xgc.Runtime.Contract.{validate_contracts}
use xgc.Runtime.Creation.{create, initial_runtime}
use xgc.Runtime.Flags.{has_flag, update_header}
use xgc.Runtime.Handles.{handle_acquire, runtime_check_invariants}
use xgc.Prelude.{Option, ◌≡◌, inl, inr, refl, true, false, none, some, [], ◌∷◌, Ptr, arith, Ends}

abbrev answers : Answers
answers = record { state_granted = true; object = 4096; node_granted = true; grants = λ n. true }

abbrev plain : Descriptor
plain = record {
  fixed_size = 48;
  flags = 0;
  kind = 1;
  trace_slots = none;
  trace_slots_range = none;
  has_finalize = false;
}

abbrev nothing : Memory
nothing = record { header = λ p. none; slot = λ s. 0; finalized = [] }

abbrev started : Runtime MarkSweepState
started = record (initial_runtime none none nothing) { algo_state = some (record { objects = [] }) }

abbrev runtime_of : Option (Ptr × Runtime MarkSweepState) → Runtime MarkSweepState
runtime_of none = started
runtime_of (some r) = r.1

abbrev allocated : Runtime MarkSweepState
allocated = runtime_of (alloc_typed (vtable answers) 0 started (some plain) 48 0)

abbrev held : Runtime MarkSweepState
held = (handle_acquire (vtable answers) 64 allocated 4096 0).1

started-Session : Session started
unfolding create initial_runtime validate_contracts global_init apply_default_config
started-Session = created answers none none nothing (vtable answers) started refl (omega arith) refl

allocated_eq : alloc_typed (vtable answers) 0 started (some plain) 48 0 ≡ some (4096, allocated)
unfolding alloc_typed alloc
allocated_eq = refl

allocated-Session : Session allocated
unfolding initial_runtime
allocated-Session = called started-Session (
    allocate answers 0 (some plain) 48 0 4096 allocated (inr refl) (inl refl) (omega arith)
      (omega arith) allocated_eq)

allocated_object : is_object (allocated.memory.header 4096) ≡ true
unfolding alloc_typed alloc initial_runtime update_header set_header calloc_object filled
    initial_header
allocated_object = refl

held-Session : Session held
held-Session = called allocated-Session (acquire answers 64 4096 0 (inr allocated_object))

Session-check_example :
    (runtime_check_invariants (vtable answers) held ≡ true)
    × ((state : MarkSweepState) × (held.algo_state ≡ some state)
        × (held.stats.total_allocated ≡ held_bytes held.memory.header state.objects)
        × ((q : Ptr) → known state.objects q ≡ true → is_object (held.memory.header q) ≡ true))
Session-check_example = Session-check answers held held-Session

Session-target_example :
    Ends
      (λ rt'. Session rt' × (rt'.memory.header 4096 ≡ held.memory.header 4096))
      (collect_full (vtable answers) held)
unfolding handle_acquire pin
Session-target_example = Session-target answers held 4096 held-Session (λ n. refl) refl

allocated_header :
    allocated.memory.header 4096
    ≡ some (record { desc = some plain; size = 48; flags = 0; kind = 1 })
unfolding alloc_typed alloc initial_runtime update_header set_header calloc_object filled
    initial_header
allocated_header = refl

release-acquire_example :
    (held : Header) × ((both_held answers allocated 64 96 4096 0).memory.header 4096 ≡ some held)
    × (has_flag held.flags object_flag_pinned ≡ true)
    × ((one_released answers allocated 64 96 4096 0).handles
        ≡ record { self = 96; target = 4096; flags = 0 } ∷ allocated.handles)
    × (left : Header) × ((one_released answers allocated 64 96 4096 0).memory.header 4096
        ≡ some left)
    × (has_flag left.flags object_flag_pinned ≡ false)
    × (left.desc ≡ some plain)
    × (left.size ≡ 48)
    × (left.kind ≡ 1)
release-acquire_example =
    release-acquire answers allocated 64 96 4096 0
      (record { desc = some plain; size = 48; flags = 0; kind = 1 }) (omega arith) (omega arith)
      (omega arith) (omega arith) allocated_header
