-- ===== src/GenCopy/Copying/Copied.antt =====
-- What a minor collection does to the objects (src/algo/gen_copy_ms/young_copy.c): the live ones are
-- copied out, and every reference follows them.
use xgc.GenCopy.{Forward, MinorCtx}
use xgc.GenCopy.Copying.{
  Scene, young, IsScene, IsRoot, Inv, Moved, Settled, AllPromoted, forward_of,
}
use xgc.GenCopy.Copying.Places.{old_unknown}
use xgc.GenCopy.Copying.Forwards.{forward_of-none}
use xgc.GenCopy.Copying.Scanning.{HandlesMoved}
use xgc.Runtime.{Handle}
use xgc.Prelude.{◌≡◌, inl, inr, sym, ◌∙◌, subst, false, List, [], ◌∷◌, Ptr, All}

-- A place that held `v` holds the place where its object is now, which is not in the nursery.
abbrev pub Leads : Scene → List Forward → Ptr → Ptr → Type 0
Leads sc fs v w = (w ≡ forward_of fs v) × (young sc w ≡ false)

abbrev pub HandlesLead : Scene → List Forward → List Handle → List Handle → Type 0
HandlesLead sc fs [] [] = Unit {0}
HandlesLead sc fs [] (h' ∷ hs') = ⊥
HandlesLead sc fs (h ∷ hs) [] = ⊥
HandlesLead sc fs (h ∷ hs) (h' ∷ hs') =
    ((h'.self ≡ h.self) × (h'.flags ≡ h.flags) × Leads sc fs h.target h'.target)
    × HandlesLead sc fs hs hs'

module _ (sc : Scene) (k : IsScene sc) (c : MinorCtx) (i : Inv sc [] c) (all : AllPromoted c) where
  pub leads :
      (v w : Ptr) → Moved c.state.forwarded v w → Settled sc c w → Leads sc c.state.forwarded v w
  leads v w (inr e) s = (e, s all)
  leads v w (inl e) s =
      let old : young sc v ≡ false = subst (λ (t : Ptr). young sc t ≡ false) e (s all) in
      (e ∙ sym (forward_of-none c.state.forwarded v (old_unknown sc k c i v old)), s all)

  pub handles_lead :
      (hs hs' : List Handle) → HandlesMoved sc c hs hs' → HandlesLead sc c.state.forwarded hs hs'
  handles_lead [] [] m = tt
  handles_lead [] (h' ∷ hs') m = absurd m
  handles_lead (h ∷ hs) [] m = absurd m
  handles_lead (h ∷ hs) (h' ∷ hs') m =
      let first = m.0 in
      (
        (first.self, first.flags, leads h.target h'.target first.moved first.settled),
        handles_lead hs hs' m.1,
      )

  pub roots_lead :
      (slots : List Ptr)
      → All (IsRoot sc) slots
      → All (λ s. Settled sc c (c.rt.memory.slot s)) slots
      → All (λ s. Leads sc c.state.forwarded (sc.memory.slot s) (c.rt.memory.slot s)) slots
  roots_lead [] r a = tt
  roots_lead (s ∷ slots) r a =
      let root = r.0 in
      (
        leads (sc.memory.slot s) (c.rt.memory.slot s) (i.outside_slot s root.outside) a.0,
        roots_lead slots r.1 a.1,
      )
