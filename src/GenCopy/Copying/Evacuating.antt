-- ===== src/GenCopy/Copying/Evacuating.antt =====
-- A slot that is visited holds the object's new place (src/algo/gen_copy_ms/young_copy.c).
use xgc.GenCopy.{MinorCtx, promote, evacuate_slot}
use xgc.GenCopy.Copying.{Scene, young, Good, IsScene, Inv, Settled}
use xgc.GenCopy.Copying.Promoting.{promote-Promoted}
use xgc.GenCopy.Copying.Steps.{Tracked, Onward, Onward-refl, Promoted}
use xgc.Prelude.{
  ℕ, ◌≡◌, ◌≢◌, inl, inr, sym, subst, true, false, List, ◌∷◌, ◌==◌, Ptr, null, arith, Bool-cases,
}
use xgc.GenCopy.Copying.Writing.{drop_pending, with_slot, with_slot_lem, settled_at}

-- What the visit of a slot answers.
pub record Visited (sc : Scene) (s : Ptr) (pending : List Ptr) (ctx d : MinorCtx) : Type 0 where
  pub inv : Inv sc pending d
  pub onward : Onward sc ctx d
  pub settled : Settled sc d (d.rt.memory.slot s)

module _ (sc : Scene) (k : IsScene sc) (granted : (n : ℕ) → (sc.answers n).push_granted ≡ true)
    (s : Ptr) (pending : List Ptr) (ctx : MinorCtx) (i : Inv sc (s ∷ pending) ctx)
    (named : s ≢ null) (old : young sc s ≡ false) (tracked : Tracked sc ctx.state.forwarded s)
    (good : Good sc (ctx.rt.memory.slot s)) where
  abbrev promoted : Ptr × MinorCtx
  promoted = promote sc.answers ctx (ctx.rt.memory.slot s)

  promotion : Promoted sc (s ∷ pending) ctx (ctx.rt.memory.slot s) promoted
  promotion =
      promote-Promoted sc k (s ∷ pending) ctx i (ctx.rt.memory.slot s) (granted ctx.requests) good

  abbrev visited : MinorCtx
  visited =
      with_slot sc k s pending promoted.1 promotion.inv (ctx.rt.memory.slot s) promoted.0 old
        (promotion.kept s tracked) promotion.moved promotion.settled

  evacuate_slot_eq :
      (ctx.rt.memory.slot s == null) ≡ false → evacuate_slot sc.answers ctx s ≡ visited
  unfolding evacuate_slot
  evacuate_slot_eq h = ground (arith, h, named)

  evacuate_slot-null : (ctx.rt.memory.slot s == null) ≡ true → evacuate_slot sc.answers ctx s ≡ ctx
  unfolding evacuate_slot
  evacuate_slot-null h = ground (arith, h)

  null_old : (ctx.rt.memory.slot s == null) ≡ true → young sc (ctx.rt.memory.slot s) ≡ false
  null_old h = ground (arith, h, k.space)

  pub evacuate_slot-Visited : Visited sc s pending ctx (evacuate_slot sc.answers ctx s)
  evacuate_slot-Visited = elim (Bool-cases (ctx.rt.memory.slot s == null)) [
    | inl h ↦ subst (Visited sc s pending ctx) (sym (evacuate_slot-null h)) (record {
      inv = drop_pending sc s pending ctx i (λ a. null_old h);
      onward = Onward-refl sc ctx;
      settled = λ a. null_old h;
    })
    | inr h ↦
        let (inv, here) =
          with_slot_lem sc k s pending promoted.1 promotion.inv (ctx.rt.memory.slot s) promoted.0
            old (promotion.kept s tracked) promotion.moved promotion.settled in
        subst (Visited sc s pending ctx) (sym (evacuate_slot_eq h)) (record {
          inv = inv;
          onward = record {
            ext = promotion.onward.ext;
            all = promotion.onward.all;
            slots = λ q t w.
                settled_at sc k s pending promoted.1 promotion.inv (ctx.rt.memory.slot s) promoted.0
                  old (promotion.kept s tracked) promotion.moved promotion.settled q
                  (promotion.onward.slots q t w);
          };
          settled = here;
        })
  ]
