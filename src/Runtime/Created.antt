-- ===== src/Runtime/Created.antt =====
-- What `gc_runtime_create` answers (src/core/runtime.c).
use xgc.Barrier.Checks.{IsValid-set_check}
use xgc.Barrier.Valid.{set_init-IsValid}
use xgc.Heap
use xgc.Object.{Memory}
use xgc.Runtime.{Runtime, Vtable, GcConfig}
use xgc.Runtime.Contract.{validate_contracts, Honours, validate_contracts_iff}
use xgc.Runtime.Creation.{create, config_of, initial_runtime, zeroed_stats}
use xgc.Runtime.Handles.{runtime_check_invariants}
use xgc.Prelude.{
  some-injective, subst, ◌≡◌, ◌<◌, ◌⊎◌, ◌↔◌, refl, sym, ◌∙◌, ap, Bool, true, Option, none, some,
  List, [], arith, Ptr, size_mod, inl, inr,
}

-- A fresh runtime: a zeroed account, no handle and no algorithm state, the VM's memory and roots,
-- and nothing that `gc_runtime_check_invariants` finds fault with.
pub record IsFresh {S : Type 0} (bound : Vtable S) (cfg : Option GcConfig)
    (roots : Option (List Ptr)) (memory : Memory) (rt : Runtime S) : Type 0 where
  pub config : rt.cfg ≡ config_of cfg
  pub stats : rt.stats ≡ zeroed_stats
  pub handles : rt.handles ≡ []
  pub no_state : rt.algo_state ≡ none
  pub hooks : rt.scan_roots ≡ roots
  pub shared : rt.memory ≡ memory
  pub checked : runtime_check_invariants bound rt ≡ true

-- What is answered: the algorithm bound, and the fresh runtime after its `global_init`, if it has
-- one.
pub record IsCreated {S : Type 0} (bound : Vtable S) (cfg : Option GcConfig)
    (roots : Option (List Ptr)) (memory : Memory) (r : Vtable S × Runtime S) : Type 0 where
  pub algorithm : r.0 ≡ bound
  pub fresh : Runtime S
  pub fresh-IsFresh : IsFresh bound cfg roots memory fresh
  pub left_alone : bound.global_init ≡ none → r.1 ≡ fresh
  pub initialised :
      (init : Runtime S → GcConfig → Runtime S)
      → bound.global_init ≡ some init
      → r.1 ≡ init fresh (config_of cfg)

module _ {S : Type 0} (runtime_granted worklist_granted : Bool) (cfg : Option GcConfig)
    (algo : Option (Vtable S)) (default bound : Vtable S) (roots : Option (List Ptr))
    (memory : Memory) where
  fresh-IsFresh_lem :
      (config_of cfg).gc_region_size < size_mod
      → bound.has_name ≡ true
      → IsFresh bound cfg roots memory (initial_runtime cfg roots memory)
  unfolding initial_runtime Heap.init Heap.check_invariants runtime_check_invariants
  fresh-IsFresh_lem fits named = record {
    config = refl;
    stats = refl;
    handles = refl;
    no_state = refl;
    hooks = refl;
    shared = refl;
    checked =
        ground (
          arith,
          named,
          IsValid-set_check _ (set_init-IsValid (config_of cfg).gc_region_size fits),
        );
  }

  abbrev Chosen : Type 0
  Chosen = (algo ≡ some bound) ⊎ ((algo ≡ none) × (default ≡ bound))

  -- The runtime and the algorithm in the answer.
  abbrev answered : Vtable S × Runtime S
  answered =
      let rt = initial_runtime cfg roots memory in
      (bound, elim bound.global_init [ none ↦ rt | some init ↦ init rt rt.cfg ])

  bound_eq :
      Chosen
      → create runtime_granted worklist_granted cfg algo default roots memory
        ≡ create runtime_granted worklist_granted cfg (some bound) bound roots memory
  unfolding create
  bound_eq (inl e) = ap (λ o. create runtime_granted worklist_granted cfg o default roots memory) e
  bound_eq (inr (e, d)) =
      ap (λ o. create runtime_granted worklist_granted cfg o default roots memory) e
      ∙ ap (λ b. create runtime_granted worklist_granted cfg none b roots memory) d

  granted_eq :
      runtime_granted ≡ true
      → worklist_granted ≡ true
      → validate_contracts (some bound) roots ≡ true
      → create runtime_granted worklist_granted cfg (some bound) bound roots memory ≡ some answered
  unfolding create
  granted_eq r w v = ground (arith, r, w, v)

  granted_of :
      (x : Vtable S × Runtime S)
      → create runtime_granted worklist_granted cfg (some bound) bound roots memory ≡ some x
      → (runtime_granted ≡ true)
        × (worklist_granted ≡ true)
        × (validate_contracts (some bound) roots ≡ true)
  unfolding create
  granted_of x e = (ground (arith, e), ground (arith, e), ground (arith, e))

  -- With a region size that fits `size_t`, the caller's algorithm or, if there is none, the default
  -- one is bound: a runtime is answered exactly if both allocations are granted and that algorithm
  -- honours the contract, and then it is a fresh one, which the algorithm's `global_init` has
  -- initialised if there is one: before that it has no handle, no algorithm state and a zeroed
  -- account, and `gc_runtime_check_invariants` accepts it.
  pub create-IsCreated :
      (config_of cfg).gc_region_size < size_mod
      → (algo ≡ some bound) ⊎ ((algo ≡ none) × (default ≡ bound))
      → (((r : Vtable S × Runtime S) × (create runtime_granted worklist_granted cfg algo default
                roots memory
              ≡ some r))
          ↔ ((runtime_granted ≡ true) × (worklist_granted ≡ true) × Honours bound))
        × ((r : Vtable S × Runtime S)
            → create runtime_granted worklist_granted cfg algo default roots memory ≡ some r
            → IsCreated bound cfg roots memory r)
  unfolding initial_runtime
  create-IsCreated fits chosen = (
    (
      λ (x, e).
          let (r, w, v) = granted_of x (sym (bound_eq chosen) ∙ e) in
          (r, w, (validate_contracts_iff bound roots).0 v),
      λ (r, w, h).
          (answered, bound_eq chosen ∙ granted_eq r w ((validate_contracts_iff bound roots).1 h)),
    ),
    λ x e.
        let (r, w, v) = granted_of x (sym (bound_eq chosen) ∙ e) in
        let same : answered ≡ x =
          some-injective _ _ (sym (granted_eq r w v) ∙ sym (bound_eq chosen) ∙ e) in
        subst (IsCreated bound cfg roots memory) same (record {
          algorithm = refl;
          fresh = initial_runtime cfg roots memory;
          fresh-IsFresh = fresh-IsFresh_lem fits ((validate_contracts_iff bound roots).0 v).named;
          left_alone = λ off. rw off refl;
          initialised = λ init on. rw on refl;
        }),
  )
