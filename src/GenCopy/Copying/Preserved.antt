-- ===== src/GenCopy/Copying/Preserved.antt =====
-- A minor collection preserves the objects that are reachable
-- (src/algo/gen_copy_ms/young_copy.c).
use xgc.CardTable.Snapshots.{DirtyCardSnapshot}
use xgc.GenCopy.{Forward, GenCopyState, MinorCtx, find_forward}
use xgc.GenCopy.Copying.{
  Outside, Funded, Scene, young, IsScene, Inv, Moved, Settled, AllPromoted, among,
}
use xgc.GenCopy.Copying.Copied.{Leads, HandlesLead, leads, handles_lead, roots_lead}
use xgc.GenCopy.Copying.DirtyCards.{slots_of, IsCard, CardsSettled}
use xgc.GenCopy.Copying.Draining.{Drained, drain-Drained}
use xgc.GenCopy.Copying.Places.{placed_old}
use xgc.GenCopy.Copying.Keeping.{visited_cards}
use xgc.GenCopy.Copying.Scanned.{RootsGood, ScannedAll, scan_all-ScannedAll}
use xgc.GenCopy.Copying.Scanning.{HandlesMoved, HandlesMoved-Onward, Settled-Onward}
use xgc.GenCopy.Copying.Steps.{Onward}
use xgc.GenCopy.Minor.{start_minor, scan_all, collect_minor_impl}
use xgc.GenCopy.MinorEnds.{emptied, minor_outcome}
use xgc.GenCopy.Walking.{WholeObjects}
use xgc.MarkSweep.{root_slots}
use xgc.Object.{Memory, Header}
use xgc.Runtime.{Runtime, Handle}
use xgc.Prelude.{
  ℕ, ◌+◌, ◌≤◌, ◌<◌, ◌≡◌, ◌≢◌, inl, inr, sym, subst, Bool, true, false, some, List, [], ◌∷◌, Ptr,
  null, All, arith, Option, suc, Ends,
}

-- After a minor collection with the forwardings `fs`, of which no request failed: every promoted
-- object has a copy of its own outside the nursery, with its header; and each traced slot of a copy,
-- each handle, each root slot and each traced slot of a dirty card leads where the object that it
-- referred to is now. Outside the nursery and the allocator's blocks, no header changes, and a slot is
-- as it was or follows its object.
pub record Copied (sc : Scene) (rt : Runtime GenCopyState) (header' : Ptr → Option Header)
    (slot' : Ptr → Ptr) (handles' : List Handle) (fs : List Forward) : Type 0 where
  pub placed :
      (p : Ptr) (f : Forward)
      → find_forward fs p ≡ some f
      → (sc.starts p ≡ true) × (f.to ≢ null) × (young sc f.to ≡ false)
  pub distinct :
      (p q : Ptr) (f h : Forward)
      → find_forward fs p ≡ some f
      → find_forward fs q ≡ some h
      → f.to ≡ h.to
      → p ≡ q
  pub header :
      (p : Ptr) (f : Forward) → find_forward fs p ≡ some f → header' f.to ≡ rt.memory.header p
  pub slots :
      (p : Ptr) (f : Forward) (o : ℕ)
      → find_forward fs p ≡ some f
      → among o (sc.offsets p) ≡ true
      → Leads sc fs (rt.memory.slot (p + o)) (slot' (f.to + o))
  pub handles : HandlesLead sc fs rt.handles handles'
  pub roots : All (λ s. Leads sc fs (rt.memory.slot s) (slot' s)) (root_slots rt)
  pub cards :
      All
        (λ d.
          All
            (λ s. Leads sc fs (rt.memory.slot s) (slot' s))
            (slots_of rt.memory rt.barriers.old_to_young.card_granularity d))
        (visited_cards rt.barriers.old_to_young)
  pub headers_outside : (q : Ptr) → Outside sc q → header' q ≡ rt.memory.header q
  pub slots_outside : (s : Ptr) → Outside sc s → Moved fs (rt.memory.slot s) (slot' s)

module _ (sc : Scene) (k : IsScene sc) (granted : (n : ℕ) → (sc.answers n).push_granted ≡ true)
    (rt : Runtime GenCopyState) (same : rt.memory ≡ sc.memory)
    (good : RootsGood sc k granted rt same) where
  abbrev g : ℕ
  g = rt.barriers.old_to_young.card_granularity

  cards_lead :
      (ds : List DirtyCardSnapshot) (c d : MinorCtx) (i : Inv sc [] d)
      → AllPromoted d
      → All (IsCard sc k granted g) ds
      → Onward sc c d
      → CardsSettled sc k granted g c ds
      → All
          (λ x.
            All
              (λ s. Leads sc d.state.forwarded (sc.memory.slot s) (d.rt.memory.slot s))
              (slots_of sc.memory g x))
          ds
  cards_lead [] c d i all cs on a = tt
  cards_lead (x ∷ ds) c d i all cs on a =
      let card = cs.0 in
      (
        roots_lead sc k d i all (slots_of sc.memory g x) card.slots
            (Settled-Onward sc k granted (slots_of sc.memory g x) c d card.slots on a.0),
        cards_lead ds c d i all cs.1 on a.1,
      )

  module _ (owners_granted : ℕ → Bool) (c : MinorCtx)
      (drained : Drained sc k granted
        (scan_all sc.answers owners_granted true (start_minor rt sc.state))
        c)
      (all : AllPromoted c) where
    abbrev start : MinorCtx
    start = scan_all sc.answers owners_granted true (start_minor rt sc.state)

    scanned : ScannedAll sc k granted rt same start
    scanned = scan_all-ScannedAll sc k granted rt same good owners_granted

    -- The slots of a copy.
    copy_settled :
        (p : Ptr) (f : Forward) (o : ℕ)
        → find_forward c.state.forwarded p ≡ some f
        → among o (sc.offsets p) ≡ true
        → Settled sc c (c.rt.memory.slot (f.to + o))
    copy_settled p f o e a = elim (drained.inv.done p f e) [
      | inl m ↦ absurd (nowhere f.to (subst (λ s. among f.to s ≡ true) drained.empty m))
      | inr m ↦ elim (m o a) [ inl w ↦ absurd (nowhere (f.to + o) w) | inr w ↦ w ]
    ]
      where
        nowhere : (q : Ptr) → ¬ (among q [] ≡ true)
        nowhere q w = unfold among in cc

    -- In the memory before the end of the collection.
    drained-Copied :
        Copied sc
          (record rt { memory = sc.memory })
          c.rt.memory.header
          c.rt.memory.slot
          c.rt.handles
          c.state.forwarded
    drained-Copied =
        let i = drained.inv in
        record {
          placed = λ p f e.
              let (n, small, at, ne, start) = i.placed p f e in
              (
                start,
                ne,
                subst (λ (t : Ptr). young sc t ≡ false) {x = f.to + 0} {y = f.to} (omega arith)
                    (placed_old sc k c i p f 0 e k.room),
              );
          distinct = i.distinct;
          header = i.copy_header;
          slots = λ p f o e a.
              let (n, small, at, ne, start) = i.placed p f e in
              leads sc k c i all (sc.memory.slot (p + o)) (c.rt.memory.slot (f.to + o))
                (i.copy_slot p f o e (k.slots_inside p o start a).0) (copy_settled p f o e a);
          handles = handles_lead sc k c i all rt.handles c.rt.handles (
              subst (HandlesMoved sc c rt.handles) (sym drained.rest.handles) (
                HandlesMoved-Onward sc start c rt.handles start.rt.handles drained.onward
                  scanned.handles));
          roots = roots_lead sc k c i all (root_slots rt) good.roots (
              Settled-Onward sc k granted (root_slots rt) start c good.roots drained.onward
                scanned.roots);
          cards =
              cards_lead (visited_cards rt.barriers.old_to_young) start c i all good.cards
                drained.onward scanned.cards;
          headers_outside = i.outside_header;
          slots_outside = i.outside_slot;
        }

    pub emptied-Copied :
        (m : Memory)
        → m.header ≡ c.rt.memory.header
        → m.slot ≡ c.rt.memory.slot
        → Copied sc rt m.header m.slot c.rt.handles c.state.forwarded
    emptied-Copied m h s =
        subst (λ f. Copied sc rt f m.slot c.rt.handles c.state.forwarded) (sym h)
          (subst (λ f. Copied sc rt c.rt.memory.header f c.rt.handles c.state.forwarded) (sym s)
            (subst
              (λ (x : Memory).
                Copied sc (record rt { memory = x }) c.rt.memory.header c.rt.memory.slot
                  c.rt.handles c.state.forwarded)
              (sym same) drained-Copied))

  -- The last round of the collection.
  pub minor-Drained :
      (owners_granted : ℕ → Bool)
      → rt.algo_state ≡ some sc.state
      → sc.state.nursery_used ≢ 0
      → (c : MinorCtx) × (m : Memory) × (collect_minor_impl sc.answers owners_granted true rt
          ≡ some (emptied c sc.state.nursery_used m))
        × (m.header ≡ c.rt.memory.header)
        × (m.slot ≡ c.rt.memory.slot)
        × Drained sc k granted (scan_all sc.answers owners_granted true (start_minor rt sc.state)) c
  minor-Drained owners_granted attached used =
      let (c, m, e, eq, header, slot, _) =
        minor_outcome sc.answers owners_granted true rt sc.state attached k.space used
          (subst
            (λ (x : Memory).
              WholeObjects x.header (sc.state.nursery_space + sc.state.nursery_used)
                sc.state.nursery_space)
            (sym same) k.laid)
          apart in
      let s = scan_all-ScannedAll sc k granted rt same good owners_granted in
      (
        c,
        m,
        eq,
        header,
        slot,
        drain-Drained sc k granted (suc sc.state.nursery_capacity)
            (scan_all sc.answers owners_granted true (start_minor rt sc.state)) c s.inv e,
      )
    where
      apart :
          (n : ℕ) (q : Ptr)
          → sc.state.nursery_space ≤ q
          → q < sc.state.nursery_space + sc.state.nursery_used
          → (sc.answers n).copy ≢ q
      apart n q lo hi at = elim (k.elsewhere n (λ z. k.space (omega (arith, lo, at, z)))) [
        | inl before ↦ omega (arith, before, lo, at)
        | inr after ↦ omega (arith, after, k.used, hi, at)
      ]

  -- The reachable objects survive a minor collection: if every request of it is granted and no object
  -- is empty, it ends, and with some list of forwardings every promoted object has a copy of its own
  -- outside the nursery, with its header, and each traced slot of a copy, each handle, each root slot
  -- and each traced slot of a dirty card leads where the object that it referred to is now, which is
  -- not in the nursery. Outside the nursery and the allocator's blocks, no header changes, and a slot
  -- is as it was or follows its object.
  pub collect_minor-Copied :
      (owners_granted : ℕ → Bool)
      → rt.algo_state ≡ some sc.state
      → sc.state.nursery_used ≢ 0
      → Funded sc
      → Ends
          (λ rt'.
            (fs : List Forward) × Copied sc rt rt'.memory.header rt'.memory.slot rt'.handles fs)
          (collect_minor_impl sc.answers owners_granted true rt)
  collect_minor-Copied owners_granted attached used fd =
      let (c, m, eq, header, slot, d) = minor-Drained owners_granted attached used in
      subst
        (Ends (λ rt'.
          (fs : List Forward) × Copied sc rt rt'.memory.header rt'.memory.slot rt'.handles fs))
        (sym eq)
        (c.state.forwarded, emptied-Copied owners_granted c d (d.inv.fund fd).all m header slot)
