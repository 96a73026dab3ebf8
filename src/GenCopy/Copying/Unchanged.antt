-- ===== src/GenCopy/Copying/Unchanged.antt =====
-- The steps of a minor collection leave the hooks, the handles and the cards to visit alone
-- (src/algo/gen_copy_ms/young_copy.c).
use xgc.GenCopy.{
  GenCopyState, Answers, MinorCtx, size_at, add_old_node, copy_object, copy_out, promote,
  evacuate_slot, evacuate_slots, find_forward, in_nursery,
}
use xgc.GenCopy.Copying.Keeping.{visited_cards, Rest, Rest-refl, Rest-trans, add_old_node-Rest}
use xgc.Runtime.{Runtime}
use xgc.Prelude.{
  ℕ, not, ◌||◌, List, [], ◌∷◌, ◌==◌, Ptr, null, Bool-cases, Option-cases, inl, inr, ◌⊎◌, ◌≡◌, ap,
  ◌∙◌, arith,
}

module _ (a : Answers) (ctx : MinorCtx) (obj : Ptr) where
  abbrev copied : Runtime GenCopyState
  copied = record (ctx.rt) {
    memory = copy_object ctx.rt.memory obj a.copy (size_at ctx.rt.memory obj);
  }

  added-Rest : Rest copied (add_old_node a copied ctx.state a.copy).1
  added-Rest = add_old_node-Rest a copied ctx.state a.copy

  -- The barriers are those before or after the registration.
  copy_out-barriers :
      ((copy_out a ctx obj).1.rt.barriers ≡ ctx.rt.barriers)
      ⊎ ((copy_out a ctx obj).1.rt.barriers ≡ (add_old_node a copied ctx.state a.copy).1.barriers)
  unfolding copy_out
  copy_out-barriers = ground arith

  copy_out_same :
      ((copy_out a ctx obj).1.rt.scan_roots ≡ ctx.rt.scan_roots)
      × ((copy_out a ctx obj).1.rt.handles ≡ ctx.rt.handles)
  unfolding copy_out
  copy_out_same = (ground (arith, added-Rest.scan_roots), ground (arith, added-Rest.handles))

  copy_out-Rest : Rest ctx.rt (copy_out a ctx obj).1.rt
  copy_out-Rest = elim copy_out-barriers [
    | inl e ↦ record {
      scan_roots = copy_out_same.0;
      handles = copy_out_same.1;
      cards = ap (λ b. visited_cards b.old_to_young) e;
      granularity = ap (λ b. b.old_to_young.card_granularity) e;
    }
    | inr e ↦ record {
      scan_roots = copy_out_same.0;
      handles = copy_out_same.1;
      cards = ap (λ b. visited_cards b.old_to_young) e ∙ added-Rest.cards;
      granularity = ap (λ b. b.old_to_young.card_granularity) e ∙ added-Rest.granularity;
    }
  ]

module _ (answers : ℕ → Answers) where
  pub promote-Rest : (ctx : MinorCtx) (obj : Ptr) → Rest ctx.rt (promote answers ctx obj).1.rt
  unfolding promote
  promote-Rest ctx obj = elim (Bool-cases (obj == null || not (in_nursery ctx.state obj))) [
    | inl h ↦ rw (h, promote) (Rest-refl ctx.rt)
    | inr h ↦ elim (Option-cases (find_forward ctx.state.forwarded obj)) [
      | inl e ↦ rw (h, e, promote) (copy_out-Rest (answers ctx.requests) ctx obj)
      | inr (f, e) ↦ rw (h, e, promote) (Rest-refl ctx.rt)
    ]
  ]

  evacuate_slot-Rest :
      (ctx : MinorCtx) (slot : Ptr) → Rest ctx.rt (evacuate_slot answers ctx slot).rt
  unfolding evacuate_slot
  evacuate_slot-Rest ctx slot =
      let r = promote-Rest ctx (ctx.rt.memory.slot slot) in
      elim (Bool-cases (slot == null || ctx.rt.memory.slot slot == null)) [
        | inl h ↦ rw (h, evacuate_slot) (Rest-refl ctx.rt)
        | inr h ↦
            rw (h, evacuate_slot)
              (record {
                scan_roots = r.scan_roots;
                handles = r.handles;
                cards = r.cards;
                granularity = r.granularity;
              })
      ]

  pub evacuate_slots-Rest :
      (ctx : MinorCtx) (slots : List Ptr) → Rest ctx.rt (evacuate_slots answers ctx slots).rt
  unfolding evacuate_slots
  evacuate_slots-Rest ctx [] = Rest-refl ctx.rt
  evacuate_slots-Rest ctx (s ∷ slots) =
      Rest-trans ctx.rt (evacuate_slot answers ctx s).rt _ (evacuate_slot-Rest ctx s)
        (evacuate_slots-Rest (evacuate_slot answers ctx s) slots)
