-- ===== src/GenCopy/Copying/Steps.antt =====
-- What the steps of a minor collection keep of one another (src/algo/gen_copy_ms/young_copy.c).
use xgc.GenCopy.{Forward, MinorCtx, find_forward}
use xgc.GenCopy.Copying.{Scene, Outside, Inv, Moved, Settled, AllPromoted, among}
use xgc.GenCopy.Copying.Forwards.{Ext, Ext-refl, Ext-trans}
use xgc.Prelude.{ℕ, ◌+◌, ◌≡◌, ◌⊎◌, inl, inr, true, some, Ptr, List}

-- A slot outside, or of a promoted object.
abbrev pub Tracked : Scene → List Forward → Ptr → Type 0
Tracked sc fs s =
    Outside sc s
    ⊎ ((p : Ptr) × (f : Forward) × (o : ℕ) × (find_forward fs p ≡ some f)
        × (among o (sc.offsets p) ≡ true)
        × (s ≡ f.to + o))

-- What later steps keep of earlier ones.
pub record Onward (sc : Scene) (c d : MinorCtx) : Type 0 where
  pub ext : Ext c.state.forwarded d.state.forwarded
  pub all : AllPromoted d → AllPromoted c
  pub slots :
      (s : Ptr)
      → Tracked sc c.state.forwarded s
      → Settled sc c (c.rt.memory.slot s)
      → Settled sc d (d.rt.memory.slot s)

pub Tracked-Ext :
    (sc : Scene) (fs gs : List Forward) (s : Ptr) → Ext fs gs → Tracked sc fs s → Tracked sc gs s
Tracked-Ext sc fs gs s x (inl o) = inl o
Tracked-Ext sc fs gs s x (inr (p, f, o, e, m, at)) = inr (p, f, o, x p f e, m, at)

pub Onward-refl : (sc : Scene) (c : MinorCtx) → Onward sc c c
Onward-refl sc c = record { ext = Ext-refl c.state.forwarded; all = λ h. h; slots = λ s t h. h }

pub Onward-trans : (sc : Scene) (c d e : MinorCtx) → Onward sc c d → Onward sc d e → Onward sc c e
Onward-trans sc c d e h k = record {
  ext = Ext-trans c.state.forwarded d.state.forwarded e.state.forwarded h.ext k.ext;
  all = λ a. h.all (k.all a);
  slots = λ s t w.
      k.slots s (Tracked-Ext sc c.state.forwarded d.state.forwarded s h.ext t) (h.slots s t w);
}

-- What a promotion answers.
pub record Promoted (sc : Scene) (pending : List Ptr) (ctx : MinorCtx) (obj : Ptr)
    (r : Ptr × MinorCtx) : Type 0 where
  pub inv : Inv sc pending r.1
  pub onward : Onward sc ctx r.1
  pub moved : Moved r.1.state.forwarded obj r.0
  pub settled : Settled sc r.1 r.0
  pub kept :
      (s : Ptr) → Tracked sc ctx.state.forwarded s → r.1.rt.memory.slot s ≡ ctx.rt.memory.slot s
