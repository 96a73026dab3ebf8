-- ===== src/GenCopy/Copying/Writing.antt =====
-- Writing the new place of an object to a slot keeps the invariant
-- (src/algo/gen_copy_ms/young_copy.c).
use xgc.GenCopy.{MinorCtx}
use xgc.GenCopy.Copying.{Scene, Fund, young, IsScene, Inv, Moved, Settled, among}
use xgc.Object.{Memory, set_slot}
use xgc.Prelude.{
  ◌+◌, ◌≡◌, inl, inr, refl, sym, ◌∙◌, ap, subst, true, false, List, ◌∷◌, ◌==◌, Ptr, arith,
  Bool-cases,
}
use xgc.GenCopy.Copying.Places.{Moved-trans}

-- A read after a write.
pub written :
    (P : Ptr → Type 0) (m : Memory) (s w q : Ptr)
    → (s ≡ q → P w)
    → P (m.slot q)
    → P ((set_slot m s w).slot q)
unfolding set_slot
written P m s w q new old = elim (Bool-cases (s == q)) [
  | inl h ↦ rw h (new (ground (arith, h)))
  | inr h ↦ rw h old
]

-- A slot that has been visited is not pending any more.
pub drop_pending :
    (sc : Scene) (s : Ptr) (pending : List Ptr) (c : MinorCtx)
    → Inv sc (s ∷ pending) c
    → Settled sc c (c.rt.memory.slot s)
    → Inv sc pending c
drop_pending sc s pending c i settled = record {
  fund = i.fund;
  space = i.space;
  capacity = i.capacity;
  count = i.count;
  stack_valid = i.stack_valid;
  young_header = i.young_header;
  young_slot = i.young_slot;
  outside_header = i.outside_header;
  outside_slot = i.outside_slot;
  placed = i.placed;
  distinct = i.distinct;
  copy_header = i.copy_header;
  copy_slot = i.copy_slot;
  stacked = i.stacked;
  done = λ p f e. elim (i.done p f e) [
    | inl m ↦ inl m
    | inr m ↦ inr λ o a. elim (m o a) [
      | inr w ↦ inr w
      | inl w ↦ elim (Bool-cases (s == f.to + o)) [
        | inl h ↦
            inr (subst (λ (t : Ptr). Settled sc c (c.rt.memory.slot t)) (ground (arith, h)) settled)
        | inr h ↦ inl (rest (f.to + o) w h)
      ]
    ]
  ];
}
  where
    rest : (q : Ptr) → among q (s ∷ pending) ≡ true → (s == q) ≡ false → among q pending ≡ true
    rest q w h = unfold among in ground (arith, w, h)

module _ (sc : Scene) (k : IsScene sc) (s : Ptr) (pending : List Ptr) (c : MinorCtx)
    (i : Inv sc (s ∷ pending) c) (obj w : Ptr) (old : young sc s ≡ false)
    (held : c.rt.memory.slot s ≡ obj) (moved : Moved c.state.forwarded obj w)
    (settled : Settled sc c w) where
  -- `*slot = w`
  abbrev pub with_slot : MinorCtx
  with_slot = record c { rt = record (c.rt) { memory = set_slot c.rt.memory s w } }

  Moved-at :
      (v q : Ptr)
      → Moved c.state.forwarded v (c.rt.memory.slot q)
      → Moved c.state.forwarded v (with_slot.rt.memory.slot q)
  Moved-at v q m =
      written (Moved c.state.forwarded v) c.rt.memory s w q
        (λ e.
          Moved-trans sc k c i v obj w
            (subst (Moved c.state.forwarded v) (ap c.rt.memory.slot (sym e) ∙ held) m) moved)
        m

  pub settled_at :
      (q : Ptr) → Settled sc c (c.rt.memory.slot q) → Settled sc c (with_slot.rt.memory.slot q)
  settled_at q h = written (Settled sc c) c.rt.memory s w q (λ e. settled) h

  same_header : (q : Ptr) → with_slot.rt.memory.header q ≡ c.rt.memory.header q
  unfolding set_slot
  same_header q = refl

  with_slot-Fund : Fund sc c → Fund sc with_slot
  unfolding set_slot
  with_slot-Fund fund = record {
    all = fund.all;
    spent = fund.spent;
    old = fund.old;
    free = fund.free;
  }

  with_slot-Inv : Inv sc (s ∷ pending) with_slot
  with_slot-Inv = record {
    fund = λ fd. with_slot-Fund (i.fund fd);
    space = i.space;
    capacity = i.capacity;
    count = i.count;
    stack_valid = i.stack_valid;
    young_header = λ p y. same_header p ∙ i.young_header p y;
    young_slot = λ p y.
        written (λ u. u ≡ sc.memory.slot p) c.rt.memory s w p
          (λ e. absurd (ground (arith, old, y, e))) (i.young_slot p y);
    outside_header = λ p o. same_header p ∙ i.outside_header p o;
    outside_slot = λ q o. Moved-at (sc.memory.slot q) q (i.outside_slot q o);
    placed = i.placed;
    distinct = i.distinct;
    copy_header = λ p f e. same_header f.to ∙ i.copy_header p f e;
    copy_slot = λ p f o e lt. Moved-at (sc.memory.slot (p + o)) (f.to + o) (i.copy_slot p f o e lt);
    stacked = i.stacked;
    done = λ p f e. elim (i.done p f e) [
      | inl m ↦ inl m
      | inr m ↦ inr λ o a. elim (m o a) [ inl p ↦ inl p | inr h ↦ inr (settled_at (f.to + o) h) ]
    ];
  }

  self_slot : with_slot.rt.memory.slot s ≡ w
  unfolding set_slot
  self_slot = ground arith

  pub with_slot_lem : Inv sc pending with_slot × Settled sc c (with_slot.rt.memory.slot s)
  with_slot_lem =
      let here = subst (Settled sc c) (sym self_slot) settled in
      (drop_pending sc s pending with_slot with_slot-Inv here, here)
