-- ===== src/GenCopy/Bumping.antt =====
-- Bump allocation in the nursery (`gc_gen_alloc` of src/algo/gen_copy_ms/young_copy.c).
use xgc.GenCopy.{GenCopyState, Answers}
use xgc.GenCopy.Algorithm.{aligned, alloc, alloc_young, header_of, wiped}
use xgc.Object.{Descriptor, header_size, alloc_pinned, set_header}
use xgc.Runtime.{Runtime}
use xgc.Runtime.Flags.{has_flag}
use xgc.Prelude.{
  ℕ, ◌+◌, ◌/◌, ◌%◌, ◌≤◌, ◌<◌, ◌≡◌, refl, sym, subst, Bool, false, some, Ptr, arith, if◌then◌else◌,
  Ends, size_mod, add_size, ltb, leb, ◌&&◌, null,
}

-- The rounded size is a multiple of 8, and less than 8 above the size.
pub aligned_lem :
    (size : ℕ)
    → size + 7 < size_mod
    → (size ≤ aligned size) × (aligned size < size + 8) × (aligned size % 8 ≡ 0)
unfolding aligned
aligned_lem size fits = (omega arith, omega arith, omega arith)

-- Where the object is put, and what the runtime counts.
pub record Bumped (rt : Runtime GenCopyState) (state : GenCopyState) (desc : Descriptor) (size : ℕ)
    (r : Ptr × Runtime GenCopyState) : Type 0 where
  pub state' : GenCopyState
  pub attached' : r.1.algo_state ≡ some state'
  pub place : r.0 ≡ state.nursery_space + state.nursery_used
  pub behind : r.0 + aligned size ≡ state'.nursery_space + state'.nursery_used
  pub inside : state'.nursery_used ≤ state.nursery_capacity
  pub covers : size ≤ aligned size
  pub header : r.1.memory.header r.0 ≡ some (header_of desc (aligned size) 0)
  pub slot :
      (s : Ptr)
      → r.1.memory.slot s
        ≡ (if leb r.0 s && ltb s (r.0 + aligned size) then null else rt.memory.slot s)

module _ (answers : ℕ → Answers) (granted : ℕ → Bool) (snapshot_granted : Bool) (a : Answers)
    (raw : Ptr) (rt : Runtime GenCopyState) (state : GenCopyState) (desc : Descriptor)
    (size alloc_flags : ℕ) (attached : rt.algo_state ≡ some state) (room : header_size ≤ size)
    (fits : size + 7 < size_mod) (capacity : state.nursery_capacity < size_mod)
    (movable : has_flag alloc_flags alloc_pinned ≡ false)
    (small : aligned size ≤ state.nursery_capacity / 2)
    (free : state.nursery_used + aligned size ≤ state.nursery_capacity) where
  alloc_eq :
      alloc answers granted snapshot_granted a raw rt (some desc) size alloc_flags
      ≡ some (alloc_young rt state desc (aligned size))
  unfolding alloc
  alloc_eq = ground (arith, attached, movable)

  -- An object that is not pinned, takes at most half the nursery and fits behind the objects there is put
  -- right behind them, inside the nursery, with its header written and its slots cleared; no other slot
  -- changes and the next object will be put behind it.
  pub alloc-Bumped :
      Ends
        (Bumped rt state desc size)
        (alloc answers granted snapshot_granted a raw rt (some desc) size alloc_flags)
  alloc-Bumped = subst (Ends (Bumped rt state desc size)) (sym alloc_eq) (record {
    state' = record state { nursery_used = add_size state.nursery_used (aligned size) };
    attached' = unfold alloc_young in refl;
    place = unfold alloc_young in refl;
    behind = unfold alloc_young in omega arith;
    inside = omega arith;
    covers = (aligned_lem size fits).0;
    header = unfold alloc_young set_header in ground arith;
    slot = λ s. unfold alloc_young set_header wiped in ground arith;
  })
