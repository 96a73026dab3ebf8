-- ===== src/GenCopy/MinorEnds.antt =====
-- The minor collection of src/algo/gen_copy_ms/young_copy.c ends if the nursery holds whole objects.
use xgc.Barrier
use xgc.GenCopy.{GenCopyState, Answers, MinorCtx, promote, evacuate_slots}
use xgc.GenCopy.Ending.{
  free_count-le, work, Bounded, Bounded-refl, Bounded-trans, promote-Bounded,
  evacuate_slots-Bounded, visit_dirty_keeps,
}
use xgc.GenCopy.Minor.{
  scan_handles, DirtyCardVisit, remember_owner, visit_dirty_card, scan_dirty_cards, drain,
  start_minor, scan_all, finalize_dead, with_finalized, finalize_dead_nursery, reset_nursery,
  collect_minor_impl,
}
use xgc.GenCopy.Walking.{WholeObjects, WholeObjects-same, Walked, finalize_dead_ends}
use xgc.Heap
use xgc.MarkSweep.{root_slots, keep_worklist}
use xgc.Object.{Memory, object_slots}
use xgc.Runtime.{Runtime, Handle}
use xgc.Worklist
use xgc.Worklist.{Worklist}
use xgc.Prelude.{
  ℕ, zero, suc, ◌+◌, ◌≤◌, ◌<◌, ◌≡◌, ◌≢◌, refl, sym, subst, Bool, false, ◌||◌, some, List, [], ◌∷◌,
  ◌==◌, Ptr, null, arith, Bool-cases, inl, inr, Ends,
}

-- After a minor collection with a state: the nursery is where it was, and empty.
pub record Emptied (state : GenCopyState) (rt' : Runtime GenCopyState) : Type 0 where
  pub state' : GenCopyState
  pub attached : rt'.algo_state ≡ some state'
  pub space : state'.nursery_space ≡ state.nursery_space
  pub capacity : state'.nursery_capacity ≡ state.nursery_capacity
  pub used : state'.nursery_used ≡ 0
  pub forwarded : state'.forwarded ≡ []
  pub young_used : rt'.heap.young_used ≡ 0

-- The runtime when the walk over the nursery has made `m` of the memory.
abbrev pub emptied : MinorCtx → ℕ → Memory → Runtime GenCopyState
emptied c used m = reset_nursery c (with_finalized (keep_worklist c.rt c.wl) used m)

module _ (answers : ℕ → Answers) where
  scan_handles-Bounded :
      (ctx : MinorCtx) (hs : List Handle) → Bounded answers ctx (scan_handles answers ctx hs).0
  unfolding scan_handles
  scan_handles-Bounded ctx [] = Bounded-refl answers ctx
  scan_handles-Bounded ctx (h ∷ hs) =
      let first = promote answers ctx h.target in
      Bounded-trans answers ctx first.1 _ (promote-Bounded answers ctx h.target)
        (scan_handles-Bounded first.1 hs)

  pub pop_less :
      (wl : Worklist) → ((Worklist.pop wl).0 == null) ≡ false → (Worklist.pop wl).1.top + 1 ≡ wl.top
  unfolding Worklist.pop
  pop_less wl h = ground (arith, h)

  pop_top : (wl : Worklist) → (Worklist.pop wl).1.top ≤ wl.top
  unfolding Worklist.pop
  pop_top wl = ground arith

  drain_ends :
      (fuel : ℕ) (ctx : MinorCtx)
      → work ctx < fuel
      → (c : MinorCtx) × (drain answers fuel ctx ≡ some c) × Bounded answers ctx c
  unfolding drain
  drain_ends zero ctx lt = absurd (omega arith)
  drain_ends (suc fuel) ctx lt =
      let popped : MinorCtx = record ctx { wl = (Worklist.pop ctx.wl).1 } in
      let slots = object_slots ctx.rt.memory (Worklist.pop ctx.wl).0 in
      let visited = evacuate_slots answers popped slots in
      let visit = evacuate_slots-Bounded answers popped slots in
      let down : Bounded answers ctx popped = record {
        space = refl;
        capacity = refl;
        less = omega (arith, pop_top ctx.wl);
        header = λ q apart. refl;
      } in
      elim (Bool-cases ((Worklist.pop ctx.wl).0 == null)) [
        | inl h ↦ rw (h, drain) (popped, refl, down)
        | inr h ↦
            let (c, e, b) =
              drain_ends fuel visited (omega (arith, pop_less ctx.wl h, visit.less)) in
            rw (h, drain)
              (
                c,
                e,
                Bounded-trans answers ctx popped c down
                    (Bounded-trans answers popped visited c visit b),
              )
      ]

  module _ (granted : ℕ → Bool) (snapshot_granted : Bool) where
    pub remember_same :
        (visit : DirtyCardVisit) (owner : Ptr)
        → (remember_owner granted visit owner).minor ≡ visit.minor
    unfolding remember_owner
    remember_same visit owner = ground arith

    visit_dirty_card-Bounded :
        (ctx : MinorCtx) (owner : Ptr) (j : ℕ) (visit : DirtyCardVisit)
        → Bounded answers ctx visit.minor
        → Bounded answers ctx (visit_dirty_card answers granted owner j visit).minor
    unfolding visit_dirty_card
    visit_dirty_card-Bounded ctx owner j visit b = elim (Bool-cases (owner == null)) [
      | inl h ↦ rw (h, visit_dirty_card) b
      | inr h ↦
          rw (h, visit_dirty_card)
            (subst (Bounded answers ctx) (sym (remember_same _ owner)) (
              Bounded-trans answers ctx visit.minor _ b
                (evacuate_slots-Bounded answers visit.minor _)))
    ]

    scan_dirty_cards-Bounded :
        (ctx : MinorCtx)
        → Bounded answers ctx (scan_dirty_cards answers granted snapshot_granted ctx)
    unfolding scan_dirty_cards Barrier.visit_dirty_cards
    scan_dirty_cards-Bounded ctx =
        let b =
          visit_dirty_keeps (λ (v : DirtyCardVisit). Bounded answers ctx v.minor)
            (visit_dirty_card answers granted) snapshot_granted ctx.rt.barriers.old_to_young
            (record { minor = ctx; owners_to_clear = []; owner_capacity = 0 })
            (λ q j x p. visit_dirty_card-Bounded ctx q j x p) (Bounded-refl answers ctx) in
        record { space = b.space; capacity = b.capacity; less = b.less; header = b.header }

    scan_all-Bounded :
        (ctx : MinorCtx) → Bounded answers ctx (scan_all answers granted snapshot_granted ctx)
    unfolding scan_all
    scan_all-Bounded ctx =
        let handles = scan_handles answers ctx ctx.rt.handles in
        let b = scan_handles-Bounded ctx ctx.rt.handles in
        let ctx2 : MinorCtx = record (handles.0) {
          rt = record (handles.0.rt) { handles = handles.1 };
        } in
        let b2 : Bounded answers ctx ctx2 = record {
          space = b.space;
          capacity = b.capacity;
          less = b.less;
          header = b.header;
        } in
        let ctx3 = evacuate_slots answers ctx2 (root_slots ctx2.rt) in
        Bounded-trans answers ctx ctx2 _ b2 (
          Bounded-trans answers ctx2 ctx3 _
            (evacuate_slots-Bounded answers ctx2 (root_slots ctx2.rt))
            (scan_dirty_cards-Bounded ctx3))

    -- The last round of the loop, and what the collection makes of it.
    pub minor_outcome :
        (rt : Runtime GenCopyState) (state : GenCopyState)
        → rt.algo_state ≡ some state
        → state.nursery_space ≢ null
        → state.nursery_used ≢ 0
        → WholeObjects rt.memory.header
            (state.nursery_space + state.nursery_used)
            state.nursery_space
        → ((n : ℕ) (q : Ptr)
            → state.nursery_space ≤ q
            → q < state.nursery_space + state.nursery_used
            → (answers n).copy ≢ q)
        → (c : MinorCtx) × (m : Memory) × (drain answers
              (suc state.nursery_capacity)
              (scan_all answers granted snapshot_granted (start_minor rt state))
            ≡ some c)
          × (collect_minor_impl answers granted snapshot_granted rt
              ≡ some (emptied c state.nursery_used m))
          × (m.header ≡ c.rt.memory.header)
          × (m.slot ≡ c.rt.memory.slot)
          × Bounded answers (start_minor rt state) c
    minor_outcome rt state e space used laid apart =
        let ctx = start_minor rt state in
        let b = scan_all-Bounded ctx in
        let (c, eq, d) =
          drain_ends (suc state.nursery_capacity) (scan_all answers granted snapshot_granted ctx)
            (omega (arith, b.less, free_count-le [] state.nursery_space state.nursery_capacity)) in
        let all = Bounded-trans answers ctx _ c b d in
        let (m, walk, header, slot) = finalize_nursery state c all laid apart in
        (c, m, eq, ends c m eq (all_finalized state c m all walk space), header, slot, all)
      where
        idle : (state.nursery_space == null || state.nursery_used == 0) ≡ false
        idle = ground arith

        finalize_nursery :
            (st : GenCopyState) (c : MinorCtx)
            → Bounded answers (start_minor rt st) c
            → WholeObjects rt.memory.header (st.nursery_space + st.nursery_used) st.nursery_space
            → ((n : ℕ) (q : Ptr)
                → st.nursery_space ≤ q
                → q < st.nursery_space + st.nursery_used
                → (answers n).copy ≢ q)
            → Walked c.rt.memory (
                finalize_dead
                  (suc st.nursery_used)
                  c.rt.memory
                  c.state.forwarded
                  c.state.nursery_space
                  (c.state.nursery_space + st.nursery_used))
        finalize_nursery st c b w apart =
            finalize_dead_ends (suc st.nursery_used) c.rt.memory c.state.forwarded
              (c.state.nursery_space + st.nursery_used) c.state.nursery_space
              (subst (λ s. WholeObjects c.rt.memory.header (s + st.nursery_used) s) (sym b.space)
                (WholeObjects-same rt.memory.header c.rt.memory.header
                  (st.nursery_space + st.nursery_used) st.nursery_space
                  (λ q lo hi. b.header q (λ n. apart n q lo hi)) w))
              (omega arith) (omega arith)

        all_finalized :
            (st : GenCopyState) (c : MinorCtx) (m : Memory)
            → Bounded answers (start_minor rt st) c
            → finalize_dead
                (suc st.nursery_used)
                c.rt.memory
                c.state.forwarded
                c.state.nursery_space
                (c.state.nursery_space + st.nursery_used)
              ≡ some m
            → st.nursery_space ≢ null
            → finalize_dead_nursery (keep_worklist c.rt c.wl) c.state st.nursery_used
              ≡ some (with_finalized (keep_worklist c.rt c.wl) st.nursery_used m)
        all_finalized st c m b walk space =
            unfold finalize_dead_nursery in ground (arith, b.space, walk)

        ends :
            (c : MinorCtx) (m : Memory)
            → drain answers
                (suc state.nursery_capacity)
                (scan_all answers granted snapshot_granted (start_minor rt state))
              ≡ some c
            → finalize_dead_nursery (keep_worklist c.rt c.wl) c.state state.nursery_used
              ≡ some (with_finalized (keep_worklist c.rt c.wl) state.nursery_used m)
            → collect_minor_impl answers granted snapshot_granted rt
              ≡ some (emptied c state.nursery_used m)
        ends c m eq walk = unfold collect_minor_impl in ground (arith, e, idle, eq, walk)

    -- If the nursery is there and in use, its used part holds whole objects and no block that the
    -- allocator answers starts in that part, then, whatever else the allocator answers, a minor
    -- collection ends and leaves the nursery where it was and empty, without forwarding nodes.
    pub collect_minor-Ends :
        (rt : Runtime GenCopyState) (state : GenCopyState)
        → rt.algo_state ≡ some state
        → state.nursery_space ≢ null
        → state.nursery_used ≢ 0
        → WholeObjects rt.memory.header
            (state.nursery_space + state.nursery_used)
            state.nursery_space
        → ((n : ℕ) (q : Ptr)
            → state.nursery_space ≤ q
            → q < state.nursery_space + state.nursery_used
            → (answers n).copy ≢ q)
        → Ends (Emptied state) (collect_minor_impl answers granted snapshot_granted rt)
    collect_minor-Ends rt state e space used laid apart =
        let (c, m, _, eq, _, _, k) = minor_outcome rt state e space used laid apart in
        subst (Ends (Emptied state)) (sym eq) (record {
          state' = record (c.state) { nursery_used = 0; forwarded = [] };
          attached = refl;
          space = k.space;
          capacity = k.capacity;
          used = refl;
          forwarded = refl;
          young_used = unfold Heap.reset_young in refl;
        })
