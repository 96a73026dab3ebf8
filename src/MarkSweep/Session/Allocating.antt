-- ===== src/MarkSweep/Session/Allocating.antt =====
-- What `gc_alloc_typed` does with the algorithm of src/algo/marksweep/ms.c: the object is the
-- algorithm's, or a plain one that the algorithm does not know, or there is none.
use xgc.MarkSweep.{MarkSweepState}
use xgc.MarkSweep.Algorithm.{Answers, vtable, alloc, record_alloc, initial_header}
use xgc.Object.{Memory, Header, Descriptor, set_header, calloc_object, zeroed_header, header_size}
use xgc.Runtime.{Runtime}
use xgc.Runtime.Allocation.{alloc_typed, filled}
use xgc.Runtime.Flags.{update_header}
use xgc.Prelude.{
  ℕ, ◌^◌, ◌≤◌, ◌<◌, ◌≡◌, refl, true, false, not, ◌&&◌, ◌||◌, Option, none, some, ◌∷◌, Ptr, null,
  is_none, arith, ltb, ◌==◌, if◌then◌else◌,
}

module _ (desc : Descriptor) (size alloc_flags : ℕ) where
  -- The header of an object that the algorithm allocates.
  abbrev pub typed_header : Header
  typed_header = filled desc size alloc_flags (initial_header (some desc) size alloc_flags)

  abbrev pub raw_header : Header
  raw_header = filled desc size alloc_flags zeroed_header

  pub typed_header_lem :
      header_size ≤ size
      → size < 2 ^ 32
      → (typed_header.size ≡ size) × (is_none typed_header.desc ≡ false)
  unfolding filled initial_header
  typed_header_lem lo hi = ground arith

  pub raw_header_lem :
      header_size ≤ size
      → size < 2 ^ 32
      → (raw_header.size ≡ size) × (is_none raw_header.desc ≡ false)
  unfolding filled
  raw_header_lem lo hi = ground arith

  abbrev pub typed_memory : Memory → Ptr → Memory
  typed_memory m obj =
      update_header
        (set_header (calloc_object m obj size) obj
          (some (initial_header (some desc) size alloc_flags)))
        obj (filled desc size alloc_flags)

  abbrev pub raw_memory : Memory → Ptr → Memory
  raw_memory m obj = update_header (calloc_object m obj size) obj (filled desc size alloc_flags)

  pub typed_memory-header :
      (m : Memory) (obj q : Ptr)
      → (typed_memory m obj).header q ≡ (if obj == q then some typed_header else m.header q)
  unfolding update_header set_header calloc_object
  typed_memory-header m obj q = ground arith

  pub raw_memory-header :
      (m : Memory) (obj q : Ptr)
      → (raw_memory m obj).header q ≡ (if obj == q then some raw_header else m.header q)
  unfolding update_header set_header calloc_object
  raw_memory-header m obj q = ground arith

  module _ (a : Answers) (raw : Ptr) (rt : Runtime MarkSweepState) (state : MarkSweepState)
      (attached : rt.algo_state ≡ some state) (room : header_size ≤ size) where
    -- The runtime with a new object of the algorithm.
    abbrev pub with_object : Runtime MarkSweepState
    with_object = record rt {
      algo_state =
          some (record { objects = record { obj = a.object; marked = false } ∷ state.objects });
      stats = record_alloc rt.stats size;
      memory = typed_memory rt.memory a.object;
    }

    abbrev pub with_raw : Runtime MarkSweepState
    with_raw = record rt { memory = raw_memory rt.memory raw }

    pub alloc_typed-some :
        (not (a.object == null) && a.node_granted) ≡ true
        → alloc_typed (vtable a) raw rt (some desc) size alloc_flags ≡ some (a.object, with_object)
    unfolding alloc_typed alloc
    alloc_typed-some h = ground (arith, attached)

    pub alloc_typed_raw :
        (not (a.object == null) && a.node_granted) ≡ false
        → alloc_typed (vtable a) raw rt (some desc) size alloc_flags
          ≡ some (if raw == null then (null, rt) else (raw, with_raw))
    unfolding alloc_typed alloc
    alloc_typed_raw h = ground (arith, attached)

pub alloc_typed_refused :
    (a : Answers) (raw : Ptr) (rt : Runtime MarkSweepState) (desc : Option Descriptor)
    (size alloc_flags : ℕ)
    → (is_none desc || ltb size header_size) ≡ true
    → alloc_typed (vtable a) raw rt desc size alloc_flags ≡ some (null, rt)
unfolding alloc_typed
alloc_typed_refused a raw rt none size alloc_flags h = refl
alloc_typed_refused a raw rt (some d) size alloc_flags h = ground arith
