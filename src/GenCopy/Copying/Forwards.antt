-- ===== src/GenCopy/Copying/Forwards.antt =====
-- References after promotions (src/algo/gen_copy_ms/young_copy.c).
use xgc.GenCopy.{Forward, GenCopyState, find_forward, in_nursery}
use xgc.GenCopy.Copying.{Scene, young, IsScene, copy, forward_of, Moved}
use xgc.Prelude.{
  ℕ, ◌+◌, ◌<◌, ◌≡◌, ◌≢◌, ◌⊎◌, inl, inr, refl, sym, ◌∙◌, ap, false, none, some, List, ◌∷◌, ◌==◌, Ptr,
  null, arith, Option-cases, if◌then◌else◌,
}

-- Later promotions do not change earlier ones.
abbrev pub Ext : List Forward → List Forward → Type 0
Ext fs gs = (p : Ptr) (f : Forward) → find_forward fs p ≡ some f → find_forward gs p ≡ some f

pub forward_of-some :
    (fs : List Forward) (v : Ptr) (f : Forward)
    → find_forward fs v ≡ some f
    → forward_of fs v ≡ f.to
unfolding forward_of
forward_of-some fs v f e = ground (arith, e)

pub forward_of-none : (fs : List Forward) (v : Ptr) → find_forward fs v ≡ none → forward_of fs v ≡ v
unfolding forward_of
forward_of-none fs v e = ground (arith, e)

pub Moved-Ext : (fs gs : List Forward) (v w : Ptr) → Ext fs gs → Moved fs v w → Moved gs v w
Moved-Ext fs gs v w x (inl e) = inl e
Moved-Ext fs gs v w x (inr e) = elim (Option-cases (find_forward fs v)) [
  | inl off ↦ inl (e ∙ forward_of-none fs v off)
  | inr (f, on) ↦ inr (e ∙ forward_of-some fs v f on ∙ sym (forward_of-some gs v f (x v f on)))
]

pub find_forward-cons :
    (f : Forward) (fs : List Forward) (p : Ptr)
    → find_forward (f ∷ fs) p ≡ (if f.from == p then some f else find_forward fs p)
unfolding find_forward
find_forward-cons f fs p = refl

pub in_nursery-young :
    (sc : Scene) (state : GenCopyState) (p : Ptr)
    → state.nursery_space ≡ sc.state.nursery_space
    → state.nursery_capacity ≡ sc.state.nursery_capacity
    → sc.state.nursery_space ≢ null
    → in_nursery state p ≡ young sc p
unfolding in_nursery
in_nursery-young sc state p s c n = ground (arith, s, c)

-- An object's copy lies outside the nursery.
pub copy-old :
    (sc : Scene) (k : IsScene sc) (n o : ℕ)
    → copy sc n ≢ null
    → o < sc.block
    → young sc (copy sc n + o) ≡ false
copy-old sc k n o ne lt = ground (arith, k.elsewhere n ne)

pub find_cases :
    (f : Forward) (fs : List Forward) (p : Ptr) (g : Forward)
    → find_forward (f ∷ fs) p ≡ some g
    → ((f.from ≡ p) × (f ≡ g)) ⊎ (find_forward fs p ≡ some g)
unfolding find_forward
find_cases f fs p g e = ground arith

pub Ext-cons : (f : Forward) (fs : List Forward) → find_forward fs f.from ≡ none → Ext fs (f ∷ fs)
unfolding find_forward
Ext-cons f fs fresh p g e = ground (arith, e, fresh, same)
  where
    same : f.from ≡ p → find_forward fs f.from ≡ find_forward fs p
    same h = ap (find_forward fs) h

pub Ext-refl : (fs : List Forward) → Ext fs fs
Ext-refl fs p f e = e

pub Ext-trans : (fs gs hs : List Forward) → Ext fs gs → Ext gs hs → Ext fs hs
Ext-trans fs gs hs x y p f e = y p f (x p f e)
