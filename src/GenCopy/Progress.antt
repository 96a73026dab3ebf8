-- ===== src/GenCopy/Progress.antt =====
-- A request for a small object that may move is always served (`gc_gen_alloc` of
-- src/algo/gen_copy_ms/young_copy.c).
use xgc.GenCopy.{GenCopyState, Answers}
use xgc.GenCopy.Algorithm.{aligned, alloc, alloc_young, alloc_in, header_of}
use xgc.GenCopy.Minor.{collect_minor_impl}
use xgc.GenCopy.MinorEnds.{Emptied, collect_minor-Ends}
use xgc.GenCopy.Walking.{WholeObjects}
use xgc.Object.{Descriptor, header_size, alloc_pinned, set_header}
use xgc.Runtime.{Runtime}
use xgc.Runtime.Flags.{has_flag}
use xgc.Prelude.{
  ℕ, ◌+◌, ◌*◌, ◌/◌, ◌≤◌, ◌<◌, ◌≡◌, ◌≢◌, refl, sym, subst, ◌∙◌, Bool, false, Option, none, some, Ptr,
  arith, Ends, size_mod, leb, null, Bool-cases, inl, inr,
}

-- The object is in the nursery, covers the request, and has its header.
pub record Served (state : GenCopyState) (desc : Descriptor) (size : ℕ)
    (r : Ptr × Runtime GenCopyState) : Type 0 where
  pub there : r.0 ≢ null
  pub covers : size ≤ aligned size
  pub above : state.nursery_space ≤ r.0
  pub inside : r.0 + aligned size ≤ state.nursery_space + state.nursery_capacity
  pub header : r.1.memory.header r.0 ≡ some (header_of desc (aligned size) 0)

module _ (answers : ℕ → Answers) (granted : ℕ → Bool) (snapshot_granted : Bool) (a : Answers)
    (raw : Ptr) (desc : Descriptor) (size alloc_flags : ℕ) where
  -- With room behind the objects of the nursery.
  alloc_in-Served :
      (rt : Runtime GenCopyState) (state : GenCopyState)
      → rt.algo_state ≡ some state
      → state.nursery_space ≢ null
      → state.nursery_used + aligned size ≤ state.nursery_capacity
      → state.nursery_capacity < size_mod
      → size + 7 < size_mod
      → Served state desc size (alloc_in a raw desc (aligned size) alloc_flags rt)
  alloc_in-Served rt state e space free fits size_fits =
      subst (Served state desc size) (sym young) (record {
        covers = unfold aligned in omega (arith, size_fits);
        there = unfold alloc_young in omega (arith, space);
        above = unfold alloc_young in omega arith;
        inside = unfold alloc_young in omega (arith, free);
        header = unfold alloc_young set_header in ground arith;
      })
    where
      young :
          alloc_in a raw desc (aligned size) alloc_flags rt
          ≡ alloc_young rt state desc (aligned size)
      young = ground (arith, e, free, fits)

  module _ (rt : Runtime GenCopyState) (state : GenCopyState)
      (attached : rt.algo_state ≡ some state) (space : state.nursery_space ≢ null)
      (used : state.nursery_used ≤ state.nursery_capacity)
      (capacity : state.nursery_capacity * 2 < size_mod) (room : header_size ≤ size)
      (movable : has_flag alloc_flags alloc_pinned ≡ false)
      (small : aligned size ≤ state.nursery_capacity / 2) (size_fits : size + 7 < size_mod)
      (laid : WholeObjects rt.memory.header
        (state.nursery_space + state.nursery_used)
        state.nursery_space)
      (apart : (n : ℕ) (q : Ptr)
        → state.nursery_space ≤ q
        → q < state.nursery_space + state.nursery_used
        → (answers n).copy ≢ q) where
    fitting :
        state.nursery_used + aligned size ≤ state.nursery_capacity
        → alloc answers granted snapshot_granted a raw rt (some desc) size alloc_flags
          ≡ some (alloc_in a raw desc (aligned size) alloc_flags rt)
    unfolding alloc
    fitting free = ground (arith, attached, movable)

    collecting :
        state.nursery_capacity < state.nursery_used + aligned size
        → (rt' : Runtime GenCopyState)
        → collect_minor_impl answers granted snapshot_granted rt ≡ some rt'
        → alloc answers granted snapshot_granted a raw rt (some desc) size alloc_flags
          ≡ some (alloc_in a raw desc (aligned size) alloc_flags rt')
    unfolding alloc
    collecting full rt' e = ground (arith, attached, movable, e)

    -- A request for an object that may move and takes at most half the nursery is served from the
    -- nursery: where the nursery is full the request first collects it, which ends and makes the
    -- room. The nursery is there, is used up to its capacity at most and takes less than half of what
    -- `size_t` counts; its used part holds whole objects, and no block that the allocator answers to
    -- a promotion starts in it; the size covers a header and fits `size_t` when it is rounded up.
    pub alloc-Served :
        Ends
          (Served state desc size)
          (alloc answers granted snapshot_granted a raw rt (some desc) size alloc_flags)
    alloc-Served =
        elim (Bool-cases (leb (state.nursery_used + aligned size) state.nursery_capacity)) [
          | inl h ↦
              let free : state.nursery_used + aligned size ≤ state.nursery_capacity =
                ground (arith, h) in
              subst (Ends (Served state desc size)) (sym (fitting free))
                (alloc_in-Served rt state attached space free (omega arith) size_fits)
          | inr h ↦ after_collection (ground (arith, h)) _ refl (
              collect_minor-Ends answers granted snapshot_granted rt state attached space
                (ground (arith, h, small)) laid apart)
        ]
      where
        after_collection :
            state.nursery_capacity < state.nursery_used + aligned size
            → (r : Option (Runtime GenCopyState))
            → collect_minor_impl answers granted snapshot_granted rt ≡ r
            → Ends (Emptied state) r
            → Ends
                (Served state desc size)
                (alloc answers granted snapshot_granted a raw rt (some desc) size alloc_flags)
        after_collection full none e ends = absurd ends
        after_collection full (some rt') e k =
            let s =
              alloc_in-Served rt' k.state' k.attached (λ z. space (sym k.space ∙ z))
                (omega (arith, k.used, k.capacity, small)) (omega (arith, k.capacity)) size_fits in
            subst (Ends (Served state desc size)) (sym (collecting full rt' e)) (record {
              there = s.there;
              covers = s.covers;
              above = omega (arith, s.above, k.space);
              inside = omega (arith, s.inside, k.space, k.capacity);
              header = s.header;
            })
