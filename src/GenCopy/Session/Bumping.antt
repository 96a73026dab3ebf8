-- ===== src/GenCopy/Session/Bumping.antt =====
-- An allocation in the nursery keeps the runtime sound (`gc_gen_alloc` of
-- src/algo/gen_copy_ms/young_copy.c).
use xgc.GenCopy.{GenCopyState}
use xgc.GenCopy.Algorithm.{alloc_young, header_of, wiped}
use xgc.GenCopy.Old.{Agrees}
use xgc.GenCopy.Old.Adding.{Agrees-sizes}
use xgc.GenCopy.Session.{IsSound, in_space}
use xgc.GenCopy.Session.Keeping.{Sound, Allocated}
use xgc.GenCopy.Walking.{WholeObjects, WholeObjects-same, WholeObjects-append, finished, object}
use xgc.Heap
use xgc.MarkSweep.Nodes.{known}
use xgc.Object.{Header, Descriptor, set_header}
use xgc.Runtime.{Runtime}
use xgc.Runtime.Freeing.{bytes_at}
use xgc.Prelude.{
  ℕ, ◌+◌, ◌≤◌, ◌<◌, ◌^◌, ◌≡◌, ◌≢◌, ◌∙◌, subst, some-injective, refl, sym, ap, true, false, ◌&&◌,
  Option, none, some, Ptr, arith, ◌==◌, leb, ltb, if◌then◌else◌, add_size,
}

module _ (rt : Runtime GenCopyState) (state : GenCopyState) (s : IsSound rt state)
    (desc : Descriptor) where
  -- The bump pointer advances.
  module _ (al : ℕ) (ne : 0 < al) (free : state.nursery_used + al ≤ state.nursery_capacity)
      (small : al < 2 ^ 32) where
    abbrev obj : Ptr
    obj = state.nursery_space + state.nursery_used

    abbrev new_header : Ptr → Option Header
    new_header q =
        if obj == q
        then some (header_of desc al 0)
        else if leb obj q && ltb q (obj + al)
        then none
        else rt.memory.header q

    same_sizes :
        (q : Ptr)
        → known state.old_objects q ≡ true
        → bytes_at (rt.memory.header q) ≡ bytes_at (new_header q)
    same_sizes q on = ap bytes_at (sym (same (s.outside q on)))
      where
        same : in_space state q ≡ false → new_header q ≡ rt.memory.header q
        same out = ground (arith, out, free, ne)

    header_at_obj : new_header obj ≡ some (header_of desc al 0)
    header_at_obj = ground arith

    -- The new object is the last one.
    laid_up_to : WholeObjects new_header (obj + al) state.nursery_space
    laid_up_to =
        WholeObjects-append new_header obj (obj + al) state.nursery_space
          (WholeObjects-same rt.memory.header new_header obj state.nursery_space
            (λ q lo hi. ground (arith, hi, lo)) s.laid)
          (object (header_of desc al 0) header_at_obj (omega (arith, small, ne))
            (omega (arith, small))
            (subst (WholeObjects new_header (obj + al)) (omega (arith, small)) finished))
          (omega arith)

    pub alloc_young-Sound : Sound (alloc_young rt state desc al).1
    unfolding alloc_young Heap.record_young_alloc set_header wiped
    alloc_young-Sound = (
      record state { nursery_used = add_size state.nursery_used al },
      record {
        old = record {
          attached = refl;
          worklist = record { size = s.old.worklist.size; pointer = s.old.worklist.pointer };
          barriers = s.old.barriers;
          agrees = agrees_young;
        };
        space = s.space;
        base = s.base;
        capacity = s.capacity;
        used = ap (λ n. add_size n al) s.used;
        room = omega (arith, free, s.fits);
        fits = s.fits;
        outside = s.outside;
        laid =
            subst (λ stop. WholeObjects new_header stop state.nursery_space)
              (omega (arith, s.fits, free)) laid_up_to;
      },
    )
      where
        agrees_young :
            Agrees rt.barriers (Heap.record_young_alloc rt.heap al) new_header state.old_objects
        agrees_young =
            unfold Heap.record_young_alloc in
            let g =
              Agrees-sizes rt.barriers rt.heap rt.memory.header new_header state.old_objects
                same_sizes s.old.agrees in
            record {
              distinct = g.distinct;
              white = g.white;
              tracked = g.tracked;
              count = g.count;
              bytes = g.bytes;
            }

    pub alloc_young-Allocated : Allocated state (alloc_young rt state desc al)
    unfolding alloc_young set_header wiped
    alloc_young-Allocated = record {
      state' = alloc_young-Sound.0;
      sound = alloc_young-Sound.1;
      same = λ z. absurd (s.space (omega (arith, z)));
      sized = λ h at _. same_size h (sym header_at_obj ∙ at);
    }
      where
        same_size : (h : Header) → some (header_of desc al 0) ≡ some h → h.size ≢ 0
        same_size h e = omega (
          arith,
          ap (λ (x : Header). x.size) (some-injective (header_of desc al 0) h e),
          small,
          ne,
        )
