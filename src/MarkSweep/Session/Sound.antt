-- ===== src/MarkSweep/Session/Sound.antt =====
-- Every runtime of a program is sound: the checker of src/core/invariants.c accepts it, its account is
-- that of its objects, and what a handle refers to survives a collection.
use xgc.Barrier.Valid.{set_init-IsValid}
use xgc.Barrier.Checks.{IsValid-set_check}
use xgc.Heap
use xgc.MarkSweep.{MarkSweepState, collect_full_impl, find_node}
use xgc.MarkSweep.Algorithm.{Answers, vtable, global_init}
use xgc.MarkSweep.Collecting.{collect_full_lem}
use xgc.MarkSweep.Held.{held_bytes}
use xgc.MarkSweep.Nodes.{known, marked}
use xgc.MarkSweep.Session.{
  IsSound, Call, Session, allocate, store, acquire, release, minor, major, full, created, called,
}
use xgc.Runtime.Program.{is_object}
use xgc.MarkSweep.Session.Calls.{Sound, allocate-Sound, store-Sound}
use xgc.MarkSweep.Session.Collections.{collected-IsSound}
use xgc.MarkSweep.Session.HandleCalls.{acquire-Sound, release-Sound}
use xgc.MarkSweep.Visits.{targeted}
use xgc.Object.{Memory}
use xgc.Runtime.{Runtime, Handle, GcConfig, Stats}
use xgc.Runtime.Collection.{collect_minor, collect_major, collect_full}
use xgc.Runtime.Contract.{validate_contracts}
use xgc.Runtime.Creation.{create, initial_runtime, config_of}
use xgc.Runtime.Handles.{runtime_check_invariants, check_handles, handle_check_invariants}
use mathlib.Core.Option
use xgc.Prelude.{
  ℕ, ◌<◌, ◌≡◌, refl, sym, ◌∙◌, ap, subst, Bool, true, false, Option, none, some, List, [], ◌∷◌, Ptr,
  null, arith, size_mod, Ends, Ends-some,
}

-- Other counters, with the same bytes.
counted-IsSound :
    (rt : Runtime MarkSweepState) (state : MarkSweepState) (stats : Stats)
    → IsSound rt state
    → stats.total_allocated ≡ rt.stats.total_allocated
    → stats.peak_allocated ≡ rt.stats.peak_allocated
    → IsSound (record rt { stats = stats }) state
counted-IsSound rt state stats s t p = record {
  ready = record {
    attached = s.ready.attached;
    distinct = s.ready.distinct;
    white = s.ready.white;
    worklist = record { size = s.ready.worklist.size; pointer = s.ready.worklist.pointer };
  };
  headers = s.headers;
  targets = s.targets;
  named = s.named;
  total = t ∙ s.total;
  peak = omega (arith, t, p, s.peak);
  barriers = s.barriers;
  heap = s.heap;
  gc_state = s.gc_state;
}

-- What a counted result comes from.
of_map :
    {A : Type 0} (P : A → Type 0) (f : A → A) (r : Option A) (y : A)
    → Ends P r
    → Option.map f r ≡ some y
    → (x : A) × P x × (f x ≡ y)
of_map P f none y h e = absurd h
of_map P f (some x) y h e = (x, h, ap (λ o. elim o [ none ↦ y | some z ↦ z ]) e)

module _ (rt : Runtime MarkSweepState) (state : MarkSweepState) (s : IsSound rt state)
    (grants : ℕ → Bool) (granted : (n : ℕ) → grants n ≡ true)
    (count : Runtime MarkSweepState → Runtime MarkSweepState)
    (counts : (r : Runtime MarkSweepState) (state' : MarkSweepState)
      → IsSound r state'
      → IsSound (count r) state') where
  collect-Sound :
      (rt' : Runtime MarkSweepState)
      → Option.map count (collect_full_impl grants rt) ≡ some rt'
      → Sound rt'
  collect-Sound rt' e =
      let (r, (state', c), eq) =
        of_map _ count (collect_full_impl grants rt) rt'
          (collect_full_lem grants granted rt state s.ready) e in
      subst Sound eq (state', counts r state' (collected-IsSound rt state s r state' c))

Call-Sound : {rt rt' : Runtime MarkSweepState} → Call rt rt' → Sound rt → Sound rt'
unfolding collect_minor collect_major collect_full
Call-Sound {rt} (allocate a raw desc size alloc_flags obj rt' f1 f2 small fits e) (state, s) =
    Ends-some (λ r. Sound r.1) _ (obj, rt')
      (allocate-Sound rt state s a raw size alloc_flags f1 f2 small fits desc) e
Call-Sound {rt} (store a owner slot new_value) (state, s) =
    store-Sound rt state s a owner slot new_value
Call-Sound {rt} (acquire a node obj flags valid) (state, s) =
    acquire-Sound rt state s a node obj flags valid
Call-Sound {rt} (release a handle) (state, s) = release-Sound rt state s a handle
Call-Sound {rt} (minor a rt' granted e) (state, s) =
    collect-Sound rt state s a.grants granted _
      (λ r state' k. counted-IsSound r state' _ k refl refl) rt' e
Call-Sound {rt} (major a rt' granted e) (state, s) =
    collect-Sound rt state s a.grants granted _
      (λ r state' k. counted-IsSound r state' _ k refl refl) rt' e
Call-Sound {rt} (full a rt' granted e) (state, s) =
    collect-Sound rt state s a.grants granted _
      (λ r state' k. counted-IsSound r state' _ k refl refl) rt' e

module _ (cfg : Option GcConfig) (roots : Option (List Ptr)) (memory : Memory)
    (fits : (config_of cfg).gc_region_size < size_mod) where
  abbrev empty_state : MarkSweepState
  empty_state = record { objects = [] }

  abbrev first_runtime : Runtime MarkSweepState
  first_runtime = record (initial_runtime cfg roots memory) { algo_state = some empty_state }

  first-IsSound : IsSound first_runtime empty_state
  unfolding initial_runtime known marked find_node held_bytes Heap.init Heap.check_invariants
  first-IsSound = record {
    ready = record {
      attached = refl;
      distinct = tt;
      white = λ q. refl;
      worklist = record { size = refl; pointer = refl };
    };
    headers = λ q k. absurd (ground arith);
    targets = λ q k. absurd (ground arith);
    named = refl;
    total = refl;
    peak = omega arith;
    barriers = IsValid-set_check _ (set_init-IsValid (config_of cfg).gc_region_size fits);
    heap = refl;
    gc_state = refl;
  }

  create_eq :
      (a : Answers)
      → a.state_granted ≡ true
      → create true true cfg none (vtable a) roots memory ≡ some (vtable a, first_runtime)
  unfolding create validate_contracts global_init
  create_eq a g = rw (g, create) refl

pub Session-Sound : {rt : Runtime MarkSweepState} → Session rt → Sound rt
Session-Sound (created a cfg roots memory algo rt g fits e) =
    subst Sound
      (ap (λ o. elim o [ none ↦ rt | some p ↦ p.1 ])
        (sym (create_eq cfg roots memory fits a g) ∙ e))
      (empty_state cfg roots memory fits, first-IsSound cfg roots memory fits)
Session-Sound (called session call) = Call-Sound call (Session-Sound session)

pub check_handles_lem :
    (m : Memory) (hs : List Handle)
    → targeted hs null ≡ false
    → ((q : Ptr) → targeted hs q ≡ true → is_object (m.header q) ≡ true)
    → check_handles m hs ≡ true
unfolding check_handles handle_check_invariants
check_handles_lem m [] n t = refl
check_handles_lem m (h ∷ hs) n t = ground (
  arith,
  n,
  t h.target (ground arith),
  check_handles_lem m hs (ground (arith, n)) (λ q k. t q (ground (arith, k))),
)

IsSound-check :
    (a : Answers) (rt : Runtime MarkSweepState) (state : MarkSweepState)
    → IsSound rt state
    → runtime_check_invariants (vtable a) rt ≡ true
unfolding runtime_check_invariants
IsSound-check a rt state s = ground (
  arith,
  s.gc_state,
  s.heap,
  s.barriers,
  s.ready.worklist.pointer,
  s.peak,
  check_handles_lem rt.memory rt.handles s.named s.targets,
)

-- Whatever calls a program makes (allocations of less than 4 GiB at addresses that are NULL or
-- free, with a total that fits `size_t`; stores; handles acquired on objects, and released;
-- collections whose work stack may grow), `gc_runtime_check_invariants` accepts the runtime, the
-- bytes that its statistics report are those in the headers of the collector's objects, and each
-- of these objects has a type and a size.
pub Session-check :
    (a : Answers) (rt : Runtime MarkSweepState)
    → Session rt
    → (runtime_check_invariants (vtable a) rt ≡ true)
      × ((state : MarkSweepState) × (rt.algo_state ≡ some state)
          × (rt.stats.total_allocated ≡ held_bytes rt.memory.header state.objects)
          × ((q : Ptr) → known state.objects q ≡ true → is_object (rt.memory.header q) ≡ true))
Session-check a rt session =
    let (state, s) = Session-Sound session in
    (IsSound-check a rt state s, (state, s.ready.attached, s.total, s.headers))
