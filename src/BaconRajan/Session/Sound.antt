-- ===== src/BaconRajan/Session/Sound.antt =====
-- Every runtime of a program is sound, and no object is ever reclaimed (src/core/runtime.c with
-- src/algo/bacon-rajan).
use xgc.BaconRajan
use xgc.BaconRajan.{global_init, visit_roots}
use xgc.BaconRajan.Session.{Answers, Admits, IsSound, Grows}
use xgc.BaconRajan.Session.Allocating.{allocate-Good}
use xgc.BaconRajan.Session.Calls.{
  Good, table, unchanged, store-Good, with_stats-Good, acquire-Good, release-Good,
}
use xgc.BaconRajan.Session.Growing.{Grows-trans}
use xgc.Barrier.Checks.{IsValid-set_check}
use xgc.Barrier.Valid.{set_init-IsValid}
use xgc.Heap
use xgc.MarkSweep.Session.Sound.{check_handles_lem}
use xgc.Object.{Memory}
use xgc.Runtime.{Runtime, Vtable, GcConfig}
use xgc.Runtime.Collection
use xgc.Runtime.Contract.{validate_contracts}
use xgc.Runtime.Creation.{create, initial_runtime, config_of}
use xgc.Runtime.Handles.{runtime_check_invariants}
use xgc.Runtime.Program.{
  Call, Calls, allocate, store, acquire, release, minor, major, full, stop, next,
}
use mathlib.Core.Option
use xgc.Prelude.{
  ◌<◌, ◌≡◌, refl, sym, ◌∙◌, ap, subst, true, Option, none, some, List, [], ◌∷◌, Ptr, arith,
  size_mod, Ends-some, Option-cases, inl, inr,
}

visit_roots_lem : {S : Type 0} (rt : Runtime S) (slots : List Ptr) → visit_roots rt slots ≡ rt
unfolding visit_roots
visit_roots_lem rt [] = refl
visit_roots_lem rt (slot ∷ slots) = visit_roots_lem rt slots

-- The visit of the roots changes nothing.
collect_full-some : {S : Type 0} (rt : Runtime S) → BaconRajan.collect_full rt ≡ some rt
unfolding BaconRajan.collect_full
collect_full-some rt = elim (Option-cases rt.scan_roots) [
  | inl e ↦ ground (arith, e)
  | inr (slots, e) ↦ ground (arith, e, visit_roots_lem rt slots)
]

Call-Good : {S : Type 0} {rt rt' : Runtime S} → Call table Admits rt rt' → IsSound rt → Good rt rt'
unfolding Collection.collect_minor Collection.collect_major Collection.collect_full
Call-Good {rt} (allocate a raw desc size alloc_flags obj rt' admitted unused e) s =
    Ends-some (λ r. Good rt r.1) _ (obj, rt')
      (allocate-Good a raw rt s size alloc_flags admitted unused desc) e
Call-Good {rt} (store a owner slot new_value) s = store-Good rt s a owner slot new_value
Call-Good {rt} (acquire a node obj flags valid) s = acquire-Good rt s a node obj flags valid
Call-Good {rt} (release a handle) s = release-Good rt s a handle
Call-Good {rt} (minor a rt' e) s = Ends-some (Good rt) _ rt' (with_stats-Good rt s _ refl refl) e
Call-Good {rt} (major a rt' e) s = Ends-some (Good rt) _ rt' (with_stats-Good rt s _ refl refl) e
Call-Good {rt} (full a rt' e) s =
    Ends-some (Good rt) (some (Collection.count_full rt)) rt' (with_stats-Good rt s _ refl refl)
      (sym (ap (Option.map Collection.count_full) (collect_full-some rt)) ∙ e)

Calls-Good :
    {S : Type 0} {rt rt' : Runtime S} → Calls table Admits rt rt' → IsSound rt → Good rt rt'
Calls-Good {rt} stop s = unchanged rt s
Calls-Good {rt} (next {rt' = rt1} {rt'' = rt2} calls call) s =
    let g = Calls-Good calls s in
    let r = Call-Good call g.1 in (Grows-trans rt rt1 rt2 g.0 r.0, r.1)

module _ {S : Type 0} (cfg : Option GcConfig) (roots : Option (List Ptr)) (memory : Memory)
    (fits : (config_of cfg).gc_region_size < size_mod) where
  abbrev first_runtime : Runtime S
  first_runtime = initial_runtime cfg roots memory

  first-IsSound : IsSound first_runtime
  unfolding initial_runtime Heap.init Heap.check_invariants
  first-IsSound = record {
    targets = λ q k. absurd (ground arith);
    named = refl;
    worklist = refl;
    peak = omega arith;
    barriers = IsValid-set_check _ (set_init-IsValid (config_of cfg).gc_region_size fits);
    heap = refl;
    gc_state = refl;
  }

  create_eq :
      (a : Answers)
      → create {S = S} true true cfg none (table a) roots memory ≡ some (table a, first_runtime)
  unfolding create validate_contracts global_init initial_runtime
  create_eq a = refl

IsSound-check :
    {S : Type 0} (a : Answers) (rt : Runtime S)
    → IsSound rt
    → runtime_check_invariants (table a) rt ≡ true
unfolding runtime_check_invariants
IsSound-check a rt s = ground (
  arith,
  s.gc_state,
  s.heap,
  s.barriers,
  s.worklist,
  s.peak,
  check_handles_lem rt.memory rt.handles s.named s.targets,
)

module _ {S : Type 0} (a : Answers) (cfg : Option GcConfig) (roots : Option (List Ptr))
    (memory : Memory) (algo : Vtable S) (rt0 rt rt' : Runtime S) where
  -- In a program that creates a runtime with this algorithm (with both allocations granted and a
  -- region size that fits `size_t`) and makes calls, where an allocator answers NULL or a free
  -- address, sizes fit 32 bits, the total fits `size_t` and handles are acquired on objects, no
  -- object is ever reclaimed: between any two points every object keeps its type, size and kind,
  -- nothing is finalized, and the total does not fall, collections included. At each point
  -- `gc_runtime_check_invariants` accepts the runtime.
  pub Calls-Grows :
      (config_of cfg).gc_region_size < size_mod
      → create true true cfg none (table a) roots memory ≡ some (algo, rt0)
      → Calls table Admits rt0 rt
      → Calls table Admits rt rt'
      → Grows rt rt' × (runtime_check_invariants (table a) rt' ≡ true)
  Calls-Grows fits e before after =
      let s0 : IsSound rt0 =
        subst IsSound
          (ap (λ o. elim o [ none ↦ rt0 | some p ↦ p.1 ])
            (sym (create_eq cfg roots memory fits a) ∙ e))
          (first-IsSound cfg roots memory fits) in
      let g = Calls-Good after (Calls-Good before s0).1 in (g.0, IsSound-check a rt' g.1)
