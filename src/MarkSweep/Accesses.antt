-- ===== src/MarkSweep/Accesses.antt =====
-- References through `gc_store_ref` and `gc_load_ref` (src/core/runtime.c) with the barriers of
-- src/algo/marksweep/ms.c.
use xgc.MarkSweep.{MarkSweepState}
use xgc.MarkSweep.Algorithm.{Answers, vtable}
use xgc.Object.{set_slot}
use xgc.Runtime.{Runtime}
use xgc.Runtime.References.{store_ref, load_ref}
use xgc.Prelude.{◌≡◌, refl, arith, ap, Bool-cases, inl, inr, ◌==◌, if◌then◌else◌, Ptr, null}

-- A load answers what the last store to that slot wrote, and what was there before if the store was to
-- another slot or to NULL; it changes nothing. A load from NULL answers NULL.
pub load_ref-store_ref :
    (a : Answers) (rt : Runtime MarkSweepState) (owner slot value other : Ptr)
    → load_ref (vtable a) (store_ref (vtable a) rt owner slot value) other ≡ (
      if other == null then null else if slot == other then value else rt.memory.slot other,
      store_ref (vtable a) rt owner slot value,
    )
unfolding load_ref store_ref set_slot
load_ref-store_ref a rt owner slot value other = elim (Bool-cases (other == null)) [
  | inl h ↦ rw (h, load_ref) refl
  | inr h ↦ elim (Bool-cases (slot == null)) [
    | inl k ↦ rw (h, k, load_ref, store_ref) (ap (λ v. (v, rt)) (ground (arith, h, k)))
    | inr k ↦ rw (h, k, load_ref, store_ref) refl
  ]
]
