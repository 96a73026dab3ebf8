-- ===== src/GenCopy/Copying/Draining.antt =====
-- Draining the work stack visits the slots of every promoted object
-- (src/algo/gen_copy_ms/young_copy.c).
use xgc.GenCopy.{Forward, MinorCtx, find_forward, evacuate_slots}
use xgc.GenCopy.Copying.{Scene, IsScene, Inv, Settled, among}
use xgc.GenCopy.Copying.Keeping.{Rest, Rest-refl, Rest-trans}
use xgc.GenCopy.Copying.Slots.{Ready, evacuate_slots-VisitedAll}
use xgc.GenCopy.Copying.Steps.{Onward, Onward-trans}
use xgc.GenCopy.Copying.Unchanged.{evacuate_slots-Rest}
use xgc.GenCopy.Minor.{drain}
use xgc.Object.{object_slots}
use xgc.Worklist
use xgc.Worklist.Stack.{stack, pop_lem, pop-null}
use xgc.Prelude.{
  ℕ, zero, suc, ◌+◌, ◌≡◌, ◌⊎◌, inl, inr, sym, ap, ◌∙◌, subst, true, false, some, none, List, [],
  ◌∷◌, map, ◌==◌, if◌then◌else◌, Ptr, null, All, arith, Bool-cases,
}

among-map : (x o : ℕ) (os : List ℕ) → among o os ≡ true → among (x + o) (map (λ n. x + n) os) ≡ true
unfolding among
among-map x o [] m = m
among-map x o (p ∷ os) m = ground (arith, m, among-map x o os)

module _ (sc : Scene) (k : IsScene sc)
    (granted : (n : ℕ) → (sc.answers n).push_granted ≡ true) where
  module _ (ctx : MinorCtx) (i : Inv sc [] ctx) where
    abbrev top : Ptr
    top = (Worklist.pop ctx.wl).0

    abbrev popped : MinorCtx
    popped = record ctx { wl = (Worklist.pop ctx.wl).1 }

    -- Nothing is left on the stack.
    empty_stack : (top == null) ≡ true → stack popped.wl ≡ []
    empty_stack h =
        ap (λ w. stack w) (pop-null ctx.wl i.stack_valid h)
        ∙ (pop_lem ctx.wl i.stack_valid).1
        ∙ ap (λ b. if b then [] else top ∷ stack popped.wl) h

    module _ (h : (top == null) ≡ false) where
      stack_eq : stack ctx.wl ≡ top ∷ stack popped.wl
      stack_eq =
          (pop_lem ctx.wl i.stack_valid).1 ∙ ap (λ b. if b then [] else top ∷ stack popped.wl) h

      on_top : (q : Ptr) (qs : List Ptr) → among q (q ∷ qs) ≡ true
      on_top q qs = unfold among in ground arith

      origin :
          (p : Ptr) × (f : Forward) × (find_forward ctx.state.forwarded p ≡ some f) × (f.to ≡ top)
      origin = i.stacked top (subst (λ s. among top s ≡ true) (sym stack_eq) (on_top top _))

      abbrev slots : List Ptr
      slots = map (λ o. top + o) (sc.offsets origin.0)

      slots_eq : object_slots ctx.rt.memory top ≡ slots
      slots_eq =
          let (p, f, e, at) = origin in
          let (n, small, to, ne, start) = i.placed p f e in
          k.typed p ctx.rt.memory top start (ap ctx.rt.memory.header (sym at) ∙ i.copy_header p f e)

      in_rest : (q : Ptr) (qs : List Ptr) → among q qs ≡ true → among q (top ∷ qs) ≡ true
      in_rest q qs m = unfold among in ground (arith, m)

      below :
          (q : Ptr) (qs : List Ptr)
          → among q (top ∷ qs) ≡ true
          → (top == q) ≡ false
          → among q qs ≡ true
      below q qs m ne = unfold among in ground (arith, m, ne)

      popped-done :
          (p : Ptr) (f : Forward)
          → find_forward ctx.state.forwarded p ≡ some f
          → (among f.to (stack popped.wl) ≡ true)
            ⊎ ((o : ℕ)
                → among o (sc.offsets p) ≡ true
                → (among (f.to + o) slots ≡ true)
                  ⊎ Settled sc popped (popped.rt.memory.slot (f.to + o)))
      popped-done p f e = elim (Bool-cases (top == f.to)) [
        | inl same ↦
            let (p', f', e', at) = origin in
            let eq = i.distinct p' p f' f e' e (at ∙ ground (arith, same)) in
            inr λ o a. inl (
              subst (λ (t : Ptr). among (t + o) slots ≡ true) {x = top} {y = f.to}
                (ground (arith, same))
                (among-map top o (sc.offsets origin.0)
                  (subst (λ q. among o (sc.offsets q) ≡ true) (sym eq) a)))
        | inr other ↦ elim (i.done p f e) [
          | inl m ↦
              inl (below f.to (stack popped.wl) (subst (λ s. among f.to s ≡ true) stack_eq m) other)
          | inr m ↦
              inr λ o a. elim (m o a) [ inl w ↦ absurd (nowhere (f.to + o) w) | inr w ↦ inr w ]
        ]
      ]
        where
          nowhere : (q : Ptr) → ¬ (among q [] ≡ true)
          nowhere q w = unfold among in cc

      popped-Inv : Inv sc slots popped
      popped-Inv = record {
        fund = λ fd.
            let fund = i.fund fd in
            record { all = fund.all; spent = fund.spent; old = fund.old; free = fund.free };
        space = i.space;
        capacity = i.capacity;
        count = i.count;
        stack_valid = (pop_lem ctx.wl i.stack_valid).0;
        young_header = i.young_header;
        young_slot = i.young_slot;
        outside_header = i.outside_header;
        outside_slot = i.outside_slot;
        placed = i.placed;
        distinct = i.distinct;
        copy_header = i.copy_header;
        copy_slot = i.copy_slot;
        stacked = λ x m.
            i.stacked x
              (subst (λ s. among x s ≡ true) (sym stack_eq) (in_rest x (stack popped.wl) m));
        done = popped-done;
      }

      slots-Ready :
          (os : List ℕ)
          → ((o : ℕ) → among o os ≡ true → among o (sc.offsets origin.0) ≡ true)
          → All (Ready sc ctx.state.forwarded) (map (λ o. top + o) os)
      slots-Ready [] sub = tt
      slots-Ready (o ∷ os) sub =
          let (p, f, e, at) = origin in
          (
            inr (p, f, o, e, sub o (on_top o os), ap (λ (t : Ptr). t + o) (sym at)),
            slots-Ready os (λ n m. sub n (later n m)),
          )
        where
          later : (n : ℕ) → among n os ≡ true → among n (o ∷ os) ≡ true
          later n m = unfold among in ground (arith, m)

  -- When the stack has been drained.
  pub record Drained (ctx c : MinorCtx) : Type 0 where
    pub inv : Inv sc [] c
    pub empty : stack c.wl ≡ []
    pub onward : Onward sc ctx c
    pub rest : Rest ctx.rt c.rt

  module _ (fuel : ℕ) (ctx : MinorCtx) (i : Inv sc [] ctx) where
    drain-null : (top ctx i == null) ≡ true → drain sc.answers (suc fuel) ctx ≡ some (popped ctx i)
    unfolding drain
    drain-null h = ground (arith, h)

    drain_next :
        (top ctx i == null) ≡ false
        → drain sc.answers (suc fuel) ctx
          ≡ drain sc.answers fuel
              (evacuate_slots sc.answers (popped ctx i) (object_slots ctx.rt.memory (top ctx i)))
    unfolding drain
    drain_next h = ground (arith, h)

    finished : (top ctx i == null) ≡ true → Drained ctx (popped ctx i)
    finished h = record {
      inv =
          subst (λ w. Inv sc [] (record ctx { wl = w })) (sym (pop-null ctx.wl i.stack_valid h)) i;
      empty = empty_stack ctx i h;
      onward = record { ext = λ p f e. e; all = λ x. x; slots = λ s t x. x };
      rest = Rest-refl ctx.rt;
    }

    -- One round.
    abbrev after : MinorCtx
    after = evacuate_slots sc.answers (popped ctx i) (object_slots ctx.rt.memory (top ctx i))

    round :
        (top ctx i == null) ≡ false → Inv sc [] after × Onward sc ctx after × Rest ctx.rt after.rt
    round h =
        let r =
          evacuate_slots-VisitedAll sc k granted (slots ctx i h) (popped ctx i) (popped-Inv ctx i h)
            (slots-Ready ctx i h (sc.offsets (origin ctx i h).0) (λ o m. m)) in
        let on : Onward sc ctx (evacuate_slots sc.answers (popped ctx i) (slots ctx i h)) = record {
          ext = r.onward.ext;
          all = r.onward.all;
          slots = r.onward.slots;
        } in
        subst
          (λ ss.
            let d = evacuate_slots sc.answers (popped ctx i) ss in
            Inv sc [] d × Onward sc ctx d × Rest ctx.rt d.rt)
          (sym (slots_eq ctx i h))
          (r.inv, on, evacuate_slots-Rest sc.answers (popped ctx i) (slots ctx i h))

  some-inj : (x y : MinorCtx) → some x ≡ some y → x ≡ y
  some-inj x y e = ap (λ o. elim o [ none ↦ x | some z ↦ z ]) e

  pub drain-Drained :
      (fuel : ℕ) (ctx c : MinorCtx)
      → Inv sc [] ctx
      → drain sc.answers fuel ctx ≡ some c
      → Drained ctx c
  drain-Drained zero ctx c i e = absurd (never e)
    where
      never : ¬ (drain sc.answers zero ctx ≡ some c)
      never h = unfold drain in cc
  drain-Drained (suc fuel) ctx c i e = elim (Bool-cases (top ctx i == null)) [
    | inl h ↦
        subst (Drained ctx) (some-inj (popped ctx i) c (sym (drain-null fuel ctx i h) ∙ e))
          (finished fuel ctx i h)
    | inr h ↦
        let (inv, on, rest) = round fuel ctx i h in
        let r = drain-Drained fuel (after fuel ctx i) c inv (sym (drain_next fuel ctx i h) ∙ e) in
        record {
          inv = r.inv;
          empty = r.empty;
          onward = Onward-trans sc ctx (after fuel ctx i) c on r.onward;
          rest = Rest-trans ctx.rt (after fuel ctx i).rt c.rt rest r.rest;
        }
  ]
