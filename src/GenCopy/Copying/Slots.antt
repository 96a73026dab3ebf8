-- ===== src/GenCopy/Copying/Slots.antt =====
-- Every slot of a list that is visited holds its object's new place afterwards
-- (src/algo/gen_copy_ms/young_copy.c).
use xgc.GenCopy.{Forward, MinorCtx, find_forward, evacuate_slot, evacuate_slots}
use xgc.GenCopy.Copying.{Scene, young, Good, IsScene, IsRoot, Inv, Moved, Settled, among}
use xgc.GenCopy.Copying.Evacuating.{evacuate_slot-Visited}
use xgc.GenCopy.Copying.Places.{placed_old}
use xgc.GenCopy.Copying.Forwards.{Ext, forward_of-some, forward_of-none}
use xgc.GenCopy.Copying.Steps.{Tracked, Tracked-Ext, Onward, Onward-refl, Onward-trans}
use xgc.Prelude.{
  ℕ, ◌+◌, ◌≡◌, ◌≢◌, ◌⊎◌, inl, inr, sym, ◌∙◌, subst, true, false, some, List, [], ◌∷◌, Ptr, null,
  arith, Option-cases, All,
}

-- A slot that may be visited: a root, or a slot of a promoted object.
abbrev pub Ready : Scene → List Forward → Ptr → Type 0
Ready sc fs s =
    IsRoot sc s
    ⊎ ((p : Ptr) × (f : Forward) × (o : ℕ) × (find_forward fs p ≡ some f)
        × (among o (sc.offsets p) ≡ true)
        × (s ≡ f.to + o))

pub Ready-Ext :
    (sc : Scene) (fs gs : List Forward) (s : Ptr) → Ext fs gs → Ready sc fs s → Ready sc gs s
Ready-Ext sc fs gs s x (inl o) = inl o
Ready-Ext sc fs gs s x (inr (p, f, o, e, m, at)) = inr (p, f, o, x p f e, m, at)

pub Ready-Tracked : (sc : Scene) (fs : List Forward) (s : Ptr) → Ready sc fs s → Tracked sc fs s
Ready-Tracked sc fs s (inl r) = inl r.outside
Ready-Tracked sc fs s (inr t) = inr t

All-Ready :
    (sc : Scene) (fs gs : List Forward) (ss : List Ptr)
    → Ext fs gs
    → All (Ready sc fs) ss
    → All (Ready sc gs) ss
All-Ready sc fs gs [] x a = tt
All-Ready sc fs gs (s ∷ ss) x a = (Ready-Ext sc fs gs s x a.0, All-Ready sc fs gs ss x a.1)

module _ (sc : Scene) (k : IsScene sc) where
  -- What a good reference has been replaced by is good.
  pub Moved-Good :
      {pending : List Ptr} (c : MinorCtx) (i : Inv sc pending c) (v w : Ptr)
      → Good sc v
      → Moved c.state.forwarded v w
      → Good sc w
  Moved-Good c i v w g (inl e) = subst (Good sc) (sym e) g
  Moved-Good c i v w g (inr e) = elim (Option-cases (find_forward c.state.forwarded v)) [
    | inl off ↦ subst (Good sc) (sym (e ∙ forward_of-none c.state.forwarded v off)) g
    | inr (f, on) ↦
        let at = e ∙ forward_of-some c.state.forwarded v f on in
        let old : young sc f.to ≡ false =
          subst (λ (t : Ptr). young sc t ≡ false) {x = f.to + 0} {y = f.to} (omega arith)
            (placed_old sc k c i v f 0 on k.room) in
        subst (Good sc) (sym at) (λ y. absurd (ground (arith, old, y)))
  ]

  -- What the visit of a slot needs.
  pub record CanVisit (c : MinorCtx) (s : Ptr) : Type 0 where
    pub named : s ≢ null
    pub old : young sc s ≡ false
    pub good : Good sc (c.rt.memory.slot s)

  ready_lem :
      {pending : List Ptr} (c : MinorCtx) (i : Inv sc pending c) (s : Ptr)
      → Ready sc c.state.forwarded s
      → CanVisit c s
  ready_lem c i s (inl r) = record {
    named = r.named;
    old = r.outside.old;
    good =
        Moved-Good c i (sc.memory.slot s) (c.rt.memory.slot s) r.good (i.outside_slot s r.outside);
  }
  ready_lem c i s (inr (p, f, o, e, m, at)) =
      let (n, small, to, ne, start) = i.placed p f e in
      let (lt, good) = k.slots_inside p o start m in
      subst (CanVisit c) (sym at) (record {
        named = omega (arith, ne);
        old = placed_old sc k c i p f o e (omega (arith, (k.inside p start).2));
        good =
            Moved-Good c i (sc.memory.slot (p + o)) (c.rt.memory.slot (f.to + o)) good
              (i.copy_slot p f o e lt);
      })

  module _ (granted : (n : ℕ) → (sc.answers n).push_granted ≡ true) where
    -- What the visit of a list of slots answers.
    pub record VisitedAll (slots : List Ptr) (ctx d : MinorCtx) : Type 0 where
      pub inv : Inv sc [] d
      pub onward : Onward sc ctx d
      pub settled : All (λ s. Settled sc d (d.rt.memory.slot s)) slots

    pub evacuate_slots-VisitedAll :
        (slots : List Ptr) (ctx : MinorCtx)
        → Inv sc slots ctx
        → All (Ready sc ctx.state.forwarded) slots
        → VisitedAll slots ctx (evacuate_slots sc.answers ctx slots)
    unfolding evacuate_slots
    evacuate_slots-VisitedAll [] ctx i a = record {
      inv = i;
      onward = Onward-refl sc ctx;
      settled = tt;
    }
    evacuate_slots-VisitedAll (s ∷ slots) ctx i a =
        let can = ready_lem ctx i s a.0 in
        let tracked = Ready-Tracked sc ctx.state.forwarded s a.0 in
        let v =
          evacuate_slot-Visited sc k granted s slots ctx i can.named can.old tracked can.good in
        let mid = evacuate_slot sc.answers ctx s in
        let r =
          evacuate_slots-VisitedAll slots mid v.inv
            (All-Ready sc ctx.state.forwarded mid.state.forwarded slots v.onward.ext a.1) in
        record {
          inv = r.inv;
          onward = Onward-trans sc ctx mid _ v.onward r.onward;
          settled = (
            r.onward.slots s
                (Tracked-Ext sc ctx.state.forwarded mid.state.forwarded s v.onward.ext tracked)
                v.settled,
            r.settled,
          );
        }
