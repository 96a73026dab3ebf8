-- ===== src/GenCopy/Old/Promoting.antt =====
-- A minor collection leaves the old generation in order, its promoted objects included, and a full
-- collection is the two collections one after the other (src/algo/gen_copy_ms/young_copy.c).
use xgc.GenCopy.{Forward, GenCopyState, MinorCtx}
use xgc.GenCopy.Copying.{Scene, IsScene, Funded, OldStart, young}
use xgc.GenCopy.Copying.Draining.{Drained}
use xgc.GenCopy.Copying.Preserved.{Copied, minor-Drained, emptied-Copied}
use xgc.GenCopy.Copying.Scanned.{RootsGood}
use xgc.GenCopy.Full.{collect_old, collect_full_impl}
use xgc.GenCopy.Minor.{start_minor, scan_all, collect_minor_impl}
use xgc.GenCopy.MinorEnds.{emptied}
use xgc.Object.{Memory}
use xgc.GenCopy.Old.{Agrees, IsOld}
use xgc.GenCopy.Old.Collecting.{CollectedOld, collect_old-CollectedOld}
use xgc.Heap
use xgc.Heap.{GcHeap}
use xgc.MarkSweep.Nodes.{known}
use xgc.Runtime.{Runtime}
use xgc.Prelude.{
  ℕ, Ptr, false, ◌≡◌, ◌≢◌, refl, sym, subst, Bool, true, some, none, List, [], Ends, Ends-map,
}

-- What a minor collection answers: the objects are copied, and the old generation is in order.
pub record MinorOutcome (sc : Scene) (rt rt' : Runtime GenCopyState) : Type 0 where
  pub forwarded : List Forward
  pub copied : Copied sc rt rt'.memory.header rt'.memory.slot rt'.handles forwarded
  pub state : GenCopyState
  pub old : IsOld rt' state
  pub empty : state.nursery_used ≡ 0
  pub space : state.nursery_space ≡ sc.state.nursery_space
  pub capacity : state.nursery_capacity ≡ sc.state.nursery_capacity
  pub outside : (q : Ptr) → known state.old_objects q ≡ true → young sc q ≡ false
  pub account :
      (rt'.heap.young_base ≡ sc.heap.young_base)
      × (rt'.heap.young_capacity ≡ sc.heap.young_capacity)
      × (rt'.heap.young_used ≡ 0)

module _ (sc : Scene) (k : IsScene sc) (granted : (n : ℕ) → (sc.answers n).push_granted ≡ true)
    (rt : Runtime GenCopyState) (same : rt.memory ≡ sc.memory)
    (good : RootsGood sc k granted rt same) (fd : Funded sc) (s : OldStart sc)
    (owners_granted : ℕ → Bool) (attached : rt.algo_state ≡ some sc.state)
    (used : sc.state.nursery_used ≢ 0) where
  emptied-IsOld :
      (c : MinorCtx) (m : Memory)
      → m.header ≡ c.rt.memory.header
      → Drained sc k granted (scan_all sc.answers owners_granted true (start_minor rt sc.state)) c
      → IsOld
          (emptied c sc.state.nursery_used m)
          (record (c.state) { nursery_used = 0; forwarded = [] })
  emptied-IsOld c m header d =
      let fund = d.inv.fund fd in
      let now = fund.old s in
      record {
        attached = refl;
        worklist = record { size = d.inv.stack_valid.buffer; pointer = d.inv.stack_valid.pointer };
        barriers = fund.spent.0;
        agrees =
            subst (λ f. Agrees c.rt.barriers (Heap.reset_young c.rt.heap) f c.state.old_objects)
              (sym header) (agrees_young c now.agrees);
      }
    where
      agrees_young :
          (c : MinorCtx)
          → Agrees c.rt.barriers c.rt.heap c.rt.memory.header c.state.old_objects
          → Agrees c.rt.barriers (Heap.reset_young c.rt.heap) c.rt.memory.header c.state.old_objects
      agrees_young c a =
          unfold Heap.reset_young in
          record {
            distinct = a.distinct;
            white = a.white;
            tracked = a.tracked;
            count = a.count;
            bytes = a.bytes;
          }

  account :
      (c : MinorCtx)
      → Drained sc k granted (scan_all sc.answers owners_granted true (start_minor rt sc.state)) c
      → let h = Heap.reset_young c.rt.heap in
        (h.young_base ≡ sc.heap.young_base)
        × (h.young_capacity ≡ sc.heap.young_capacity)
        × (h.young_used ≡ 0)
  unfolding Heap.reset_young
  account c d = let young = ((d.inv.fund fd).old s).young in (young.base, young.capacity, refl)

  pub minor-MinorOutcome :
      (rt' : Runtime GenCopyState) × (collect_minor_impl sc.answers owners_granted true rt
        ≡ some rt')
      × MinorOutcome sc rt rt'
  minor-MinorOutcome =
      let (c, m, eq, header, slot, d) =
        minor-Drained sc k granted rt same good owners_granted attached used in
      (
        emptied c sc.state.nursery_used m,
        eq,
        record {
          forwarded = c.state.forwarded;
          copied =
              emptied-Copied sc k granted rt same good owners_granted c d (d.inv.fund fd).all m
                header slot;
          state = record (c.state) { nursery_used = 0; forwarded = [] };
          old = emptied-IsOld c m header d;
          empty = refl;
          space = d.inv.space;
          capacity = d.inv.capacity;
          outside = ((d.inv.fund fd).old s).outside;
          account = account c d;
        },
      )

  -- What a full collection answers, by way of the runtime between its two parts.
  abbrev pub FullOutcome : Runtime GenCopyState → Type 0
  FullOutcome rt' =
      (rt1 : Runtime GenCopyState) × (minor : MinorOutcome sc rt rt1) × (state' : GenCopyState)
      × CollectedOld rt1 minor.state rt' state'

  -- A full collection moves what is alive in the nursery and then keeps only what is alive: if
  -- every request is granted, no object is empty and the old generation agrees with its account at
  -- the start, it ends, by way of a runtime to which the nursery's live objects were copied, with
  -- every reference following them, an empty nursery and an old generation in order. From there it
  -- keeps exactly the reachable old objects with their headers, slots and dirty cards, frees and
  -- finalizes the others, and leaves the old generation in order.
  pub collect_full-FullOutcome :
      (grants : ℕ → Bool)
      → ((n : ℕ) → grants n ≡ true)
      → Ends FullOutcome (collect_full_impl sc.answers owners_granted true grants rt)
  unfolding collect_full_impl
  collect_full-FullOutcome grants all =
      let (rt1, eq, minor) = minor-MinorOutcome in
      subst (λ o. Ends FullOutcome (elim o [ none ↦ none | some rt' ↦ collect_old grants rt' ]))
        (sym eq)
        (Ends-map (λ r. (state' : GenCopyState) × CollectedOld rt1 minor.state r state') FullOutcome
          (collect_old grants rt1) (λ r x. (rt1, minor, x.0, x.1))
          (collect_old-CollectedOld grants rt1 minor.state minor.old all))
