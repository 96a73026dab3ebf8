-- ===== src/GenCopy/Copying/Places.antt =====
-- Where promoted objects are, and where references to them lead
-- (src/algo/gen_copy_ms/young_copy.c).
use xgc.GenCopy.{Forward, MinorCtx, find_forward}
use xgc.GenCopy.Copying.{Scene, young, IsScene, Inv, Moved, forward_of}
use xgc.GenCopy.Copying.Forwards.{forward_of-some, forward_of-none, copy-old}
use xgc.Prelude.{
  ℕ, ◌+◌, ◌<◌, ◌≡◌, inl, inr, sym, ◌∙◌, ap, subst, false, none, some, List, Ptr, arith,
  Option-cases,
}

module _ (sc : Scene) (k : IsScene sc) where
  -- An address outside the nursery has not been promoted.
  pub old_unknown :
      {pending : List Ptr} (ctx : MinorCtx) (i : Inv sc pending ctx) (v : Ptr)
      → young sc v ≡ false
      → find_forward ctx.state.forwarded v ≡ none
  old_unknown ctx i v old = elim (Option-cases (find_forward ctx.state.forwarded v)) [
    | inl e ↦ e
    | inr (f, e) ↦
        let (n, small, at, ne, start) = i.placed v f e in
        absurd (ground (arith, old, (k.inside v start).0))
  ]

  pub placed_old :
      {pending : List Ptr} (ctx : MinorCtx) (i : Inv sc pending ctx) (p : Ptr) (f : Forward) (o : ℕ)
      → find_forward ctx.state.forwarded p ≡ some f
      → o < sc.block
      → young sc (f.to + o) ≡ false
  placed_old ctx i p f o e lt =
      let (n, small, at, ne, start) = i.placed p f e in
      subst (λ (t : Ptr). young sc (t + o) ≡ false) (sym at)
        (copy-old sc k n o (λ z. ne (at ∙ z)) lt)

  -- What a promoted reference was promoted to is not promoted again.
  pub Moved-trans :
      {pending : List Ptr} (ctx : MinorCtx) (i : Inv sc pending ctx) (v w x : Ptr)
      → Moved ctx.state.forwarded v w
      → Moved ctx.state.forwarded w x
      → Moved ctx.state.forwarded v x
  Moved-trans ctx i v w x (inl e) m = subst (λ u. Moved ctx.state.forwarded u x) e m
  Moved-trans ctx i v w x (inr e) (inl g) = inr (g ∙ e)
  Moved-trans ctx i v w x (inr e) (inr g) = inr (g ∙ ap (forward_of ctx.state.forwarded) e ∙ twice)
    where
      twice :
          forward_of ctx.state.forwarded (forward_of ctx.state.forwarded v)
          ≡ forward_of ctx.state.forwarded v
      twice = elim (Option-cases (find_forward ctx.state.forwarded v)) [
        | inl off ↦ ap (forward_of ctx.state.forwarded) (forward_of-none ctx.state.forwarded v off)
        | inr (f, on) ↦
            let at = forward_of-some ctx.state.forwarded v f on in
            let old : young sc f.to ≡ false =
              subst (λ (t : Ptr). young sc t ≡ false) {x = f.to + 0} {y = f.to} (omega arith)
                (placed_old ctx i v f 0 on k.room) in
            ap (forward_of ctx.state.forwarded) at
            ∙ forward_of-none ctx.state.forwarded f.to (old_unknown ctx i f.to old)
            ∙ sym at
      ]
