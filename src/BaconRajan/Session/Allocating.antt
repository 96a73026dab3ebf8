-- ===== src/BaconRajan/Session/Allocating.antt =====
-- What `gc_alloc_typed` does with the algorithm of src/algo/bacon-rajan.
use xgc.BaconRajan.{alloc}
use xgc.BaconRajan.Session.{Answers, Admits, IsSound}
use xgc.BaconRajan.Session.Calls.{Good, table, unchanged}
use xgc.BaconRajan.Session.Growing.{Kept-new, with_memory-IsSound}
use xgc.MarkSweep.Algorithm.{record_alloc}
use xgc.MarkSweep.Session.Allocating.{
  typed_memory, typed_memory-header, typed_header, raw_memory, raw_memory-header, raw_header,
}
use xgc.Object.{Memory, Descriptor, header_size, set_header, calloc_object}
use xgc.Runtime.{Runtime}
use xgc.Runtime.Allocation.{alloc_typed}
use xgc.Runtime.Flags.{update_header}
use xgc.Prelude.{
  ℕ, ◌≡◌, ◌⊎◌, inl, inr, refl, sym, subst, true, false, ◌||◌, Option, none, some, Ptr, null, arith,
  ltb, ◌==◌, if◌then◌else◌, is_none, Bool-cases, Ends,
}

module _ {S : Type 0} (a : Answers) (raw : Ptr) (rt : Runtime S) (s : IsSound rt)
    (size alloc_flags : ℕ) (admitted : Admits a rt size)
    (raw_unused : (raw ≡ null) ⊎ (rt.memory.header raw ≡ none)) where
  module _ (desc : Descriptor) where
    abbrev with_object : Runtime S
    with_object = record rt {
      stats = record_alloc rt.stats size;
      memory = typed_memory desc size alloc_flags rt.memory a.object;
    }

    abbrev with_raw : Runtime S
    with_raw = record rt { memory = raw_memory desc size alloc_flags rt.memory raw }

    alloc_typed_eq :
        ltb size header_size ≡ false
        → alloc_typed (table a) raw rt (some desc) size alloc_flags
          ≡ some (
              if a.object == null
              then (if raw == null then (null, rt) else (raw, with_raw))
              else (a.object, with_object))
    unfolding alloc_typed alloc
    alloc_typed_eq room = ground (arith, room)

    typed_memory-finalized :
        (m : Memory) (obj : Ptr)
        → (typed_memory desc size alloc_flags m obj).finalized ≡ m.finalized
    unfolding update_header set_header calloc_object
    typed_memory-finalized m obj = ground arith

    raw_memory-finalized :
        (m : Memory) (obj : Ptr) → (raw_memory desc size alloc_flags m obj).finalized ≡ m.finalized
    unfolding update_header set_header calloc_object
    raw_memory-finalized m obj = ground arith

    object-Good : (a.object == null) ≡ false → Good rt with_object
    object-Good ne =
        let k =
          Kept-new rt.memory with_object.memory a.object (typed_header desc size alloc_flags)
            (typed_memory-header desc size alloc_flags rt.memory a.object)
            (ground (arith, admitted.unused)) in
        let s' = with_memory-IsSound rt with_object.memory s k in
        (
          record {
            headers = k;
            finalized = typed_memory-finalized rt.memory a.object;
            total = ground (arith, admitted.fits);
          },
          record {
            targets = s'.targets;
            named = s'.named;
            worklist = s'.worklist;
            peak = ground (arith, s.peak);
            barriers = s'.barriers;
            heap = s'.heap;
            gc_state = s'.gc_state;
          },
        )

    raw-Good : (raw == null) ≡ false → Good rt with_raw
    raw-Good ne =
        let k =
          Kept-new rt.memory with_raw.memory raw (raw_header desc size alloc_flags)
            (raw_memory-header desc size alloc_flags rt.memory raw) (ground (arith, raw_unused)) in
        (
          record {
            headers = k;
            finalized = raw_memory-finalized rt.memory raw;
            total = omega arith;
          },
          with_memory-IsSound rt with_raw.memory s k,
        )

    some-Good :
        ltb size header_size ≡ false
        → Ends (λ r. Good rt r.1) (alloc_typed (table a) raw rt (some desc) size alloc_flags)
    some-Good room =
        subst (Ends (λ r. Good rt r.1)) (sym (alloc_typed_eq room))
          (elim (Bool-cases (a.object == null)) [
            | inr ne ↦ rw ne (object-Good ne)
            | inl e ↦ elim (Bool-cases (raw == null)) [
              | inl z ↦ rw (e, z) (unchanged rt s)
              | inr z ↦ rw (e, z) (raw-Good z)
            ]
          ])

  refused_eq :
      (desc : Option Descriptor)
      → (is_none desc || ltb size header_size) ≡ true
      → alloc_typed (table a) raw rt desc size alloc_flags ≡ some (null, rt)
  unfolding alloc_typed
  refused_eq none h = refl
  refused_eq (some d) h = ground arith

  pub allocate-Good :
      (desc : Option Descriptor)
      → Ends (λ r. Good rt r.1) (alloc_typed (table a) raw rt desc size alloc_flags)
  allocate-Good none = rw (refused_eq none refl) (unchanged rt s)
  allocate-Good (some desc) = elim (Bool-cases (ltb size header_size)) [
    | inl h ↦ rw (refused_eq (some desc) h) (unchanged rt s)
    | inr h ↦ some-Good desc h
  ]
