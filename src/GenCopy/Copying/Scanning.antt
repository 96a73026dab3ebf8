-- ===== src/GenCopy/Copying/Scanning.antt =====
-- The roots of a minor collection: the handles and the root slots
-- (src/algo/gen_copy_ms/young_copy.c).
use xgc.Barrier.{BarrierSet}
use xgc.Barrier.Valid.{registered}
use xgc.Heap.{GcHeap}
use xgc.MarkSweep.{Node}
use xgc.Object.{Memory}
use xgc.GenCopy.{GenCopyState, MinorCtx, promote, evacuate_slots}
use xgc.GenCopy.Copying.{
  OldNow, Funded, Spent, Scene, Good, IsScene, IsRoot, Inv, Moved, Settled, among,
}
use xgc.GenCopy.Copying.Forwards.{Moved-Ext}
use xgc.GenCopy.Copying.Keeping.{Rest, Rest-refl, Rest-trans}
use xgc.GenCopy.Copying.Promoting.{promote-Promoted}
use xgc.GenCopy.Copying.Slots.{Ready, VisitedAll, evacuate_slots-VisitedAll}
use xgc.GenCopy.Copying.Steps.{Onward, Onward-refl, Onward-trans}
use xgc.GenCopy.Copying.Unchanged.{promote-Rest}
use xgc.GenCopy.Minor.{scan_handles}
use xgc.Runtime.{Runtime, Handle}
use xgc.Prelude.{ℕ, ◌+◌, ◌≡◌, inl, inr, refl, sym, ap, ◌∙◌, subst, true, List, [], ◌∷◌, Ptr, All}

-- The old generation agrees with another barrier set that has the same owners.
pub OldNow-with :
    (sc : Scene) (n : ℕ) (b b' : BarrierSet) (h h' : GcHeap) (m m' : Memory) (ns : List Node)
    → ((q : Ptr) → registered b' q ≡ registered b q)
    → h' ≡ h
    → m' ≡ m
    → OldNow sc n b h m.header ns
    → OldNow sc n b' h' m'.header ns
OldNow-with sc n b b' h h' m m' ns owners eh em o =
    subst (λ x. OldNow sc n b' x m'.header ns) (sym eh)
      (subst (λ x. OldNow sc n b' h x.header ns) (sym em)
        (record {
          agrees = record {
            distinct = o.agrees.distinct;
            white = o.agrees.white;
            tracked = λ q. owners q ∙ o.agrees.tracked q;
            count = o.agrees.count;
            bytes = o.agrees.bytes;
          };
          fresh = o.fresh;
          outside = o.outside;
          count = o.count;
          bytes = o.bytes;
          young = o.young;
        }))

-- More slots may be pending, and the runtime may change outside the memory.
pub Inv-with :
    (sc : Scene) (pending : List Ptr) (c : MinorCtx) (rt : Runtime GenCopyState)
    → rt.memory ≡ c.rt.memory
    → (Funded sc → Spent sc rt.barriers c.requests)
    → ((q : Ptr) → registered rt.barriers q ≡ registered c.rt.barriers q)
    → rt.heap ≡ c.rt.heap
    → Inv sc [] c
    → Inv sc pending (record c { rt = rt })
Inv-with sc pending c rt e paid owners heap i = record {
  fund = λ fd.
      let fund = i.fund fd in
      record {
        all = fund.all;
        spent = paid fd;
        old = λ s.
            OldNow-with sc c.requests c.rt.barriers rt.barriers c.rt.heap rt.heap c.rt.memory
              rt.memory c.state.old_objects owners heap e (fund.old s);
        free = fund.free;
      };
  space = i.space;
  capacity = i.capacity;
  count = i.count;
  stack_valid = i.stack_valid;
  young_header = λ p y. ap (λ m. m.header p) e ∙ i.young_header p y;
  young_slot = λ p y. ap (λ m. m.slot p) e ∙ i.young_slot p y;
  outside_header = λ p o. ap (λ m. m.header p) e ∙ i.outside_header p o;
  outside_slot = λ s o.
      subst (Moved c.state.forwarded (sc.memory.slot s)) (sym (ap (λ m. m.slot s) e))
        (i.outside_slot s o);
  placed = i.placed;
  distinct = i.distinct;
  copy_header = λ p f h. ap (λ m. m.header f.to) e ∙ i.copy_header p f h;
  copy_slot = λ p f o h lt.
      subst (Moved c.state.forwarded (sc.memory.slot (p + o))) (sym (ap (λ m. m.slot (f.to + o)) e))
        (i.copy_slot p f o h lt);
  stacked = i.stacked;
  done = λ p f h. elim (i.done p f h) [
    | inl m ↦ inl m
    | inr m ↦ inr λ o a. elim (m o a) [
      | inl w ↦ absurd (nowhere (f.to + o) w)
      | inr w ↦ inr (subst (λ (t : Ptr). Settled sc c t) (sym (ap (λ m. m.slot (f.to + o)) e)) w)
    ]
  ];
}
  where
    nowhere : (q : Ptr) → ¬ (among q [] ≡ true)
    nowhere q w = unfold among in cc

-- A handle whose target was promoted.
pub record HandleMoved (sc : Scene) (c : MinorCtx) (h h' : Handle) : Type 0 where
  pub self : h'.self ≡ h.self
  pub flags : h'.flags ≡ h.flags
  pub moved : Moved c.state.forwarded h.target h'.target
  pub settled : Settled sc c h'.target

abbrev pub HandlesMoved : Scene → MinorCtx → List Handle → List Handle → Type 0
HandlesMoved sc c [] [] = Unit {0}
HandlesMoved sc c [] (h' ∷ hs') = ⊥
HandlesMoved sc c (h ∷ hs) [] = ⊥
HandlesMoved sc c (h ∷ hs) (h' ∷ hs') = HandleMoved sc c h h' × HandlesMoved sc c hs hs'

HandleMoved-Onward :
    (sc : Scene) (c d : MinorCtx) (h h' : Handle)
    → Onward sc c d
    → HandleMoved sc c h h'
    → HandleMoved sc d h h'
HandleMoved-Onward sc c d h h' o m = record {
  self = m.self;
  flags = m.flags;
  moved = Moved-Ext c.state.forwarded d.state.forwarded h.target h'.target o.ext m.moved;
  settled = λ a. m.settled (o.all a);
}

pub HandlesMoved-Onward :
    (sc : Scene) (c d : MinorCtx) (hs hs' : List Handle)
    → Onward sc c d
    → HandlesMoved sc c hs hs'
    → HandlesMoved sc d hs hs'
HandlesMoved-Onward sc c d [] [] o m = m
HandlesMoved-Onward sc c d [] (h' ∷ hs') o m = absurd m
HandlesMoved-Onward sc c d (h ∷ hs) [] o m = absurd m
HandlesMoved-Onward sc c d (h ∷ hs) (h' ∷ hs') o m =
    (HandleMoved-Onward sc c d h h' o m.0, HandlesMoved-Onward sc c d hs hs' o m.1)

module _ (sc : Scene) (k : IsScene sc)
    (granted : (n : ℕ) → (sc.answers n).push_granted ≡ true) where
  pub record ScannedHandles (ctx : MinorCtx) (hs : List Handle) (r : MinorCtx × List Handle)
      : Type 0 where
    pub inv : Inv sc [] r.0
    pub onward : Onward sc ctx r.0
    pub rest : Rest ctx.rt r.0.rt
    pub moved : HandlesMoved sc r.0 hs r.1

  pub scan_handles-ScannedHandles :
      (ctx : MinorCtx) (hs : List Handle)
      → Inv sc [] ctx
      → All (λ h. Good sc h.target) hs
      → ScannedHandles ctx hs (scan_handles sc.answers ctx hs)
  unfolding scan_handles
  scan_handles-ScannedHandles ctx [] i a = record {
    inv = i;
    onward = Onward-refl sc ctx;
    rest = Rest-refl ctx.rt;
    moved = tt;
  }
  scan_handles-ScannedHandles ctx (h ∷ hs) i a =
      let p = promote-Promoted sc k [] ctx i h.target (granted ctx.requests) a.0 in
      let mid = promote sc.answers ctx h.target in
      let r = scan_handles-ScannedHandles mid.1 hs p.inv a.1 in
      let first : HandleMoved sc mid.1 h (record h { target = mid.0 }) = record {
        self = refl;
        flags = refl;
        moved = p.moved;
        settled = p.settled;
      } in
      record {
        inv = r.inv;
        onward = Onward-trans sc ctx mid.1 _ p.onward r.onward;
        rest = Rest-trans ctx.rt mid.1.rt _ (promote-Rest sc.answers ctx h.target) r.rest;
        moved =
            (HandleMoved-Onward sc mid.1 _ h (record h { target = mid.0 }) r.onward first, r.moved);
      }

  pub roots-Ready :
      (ctx : MinorCtx) (slots : List Ptr)
      → All (IsRoot sc) slots
      → All (Ready sc ctx.state.forwarded) slots
  roots-Ready ctx [] a = tt
  roots-Ready ctx (s ∷ slots) a = (inl a.0, roots-Ready ctx slots a.1)

  -- The visit of a list of root slots.
  pub visit_roots :
      (slots : List Ptr) (ctx : MinorCtx)
      → Inv sc [] ctx
      → All (IsRoot sc) slots
      → VisitedAll sc k granted slots ctx (evacuate_slots sc.answers ctx slots)
  visit_roots slots ctx i a =
      evacuate_slots-VisitedAll sc k granted slots ctx
        (Inv-with sc slots ctx ctx.rt refl (λ fd. (i.fund fd).spent) (λ q. refl) refl i)
        (roots-Ready ctx slots a)

  -- Slots that are settled stay so.
  pub Settled-Onward :
      (slots : List Ptr) (c d : MinorCtx)
      → All (IsRoot sc) slots
      → Onward sc c d
      → All (λ s. Settled sc c (c.rt.memory.slot s)) slots
      → All (λ s. Settled sc d (d.rt.memory.slot s)) slots
  Settled-Onward [] c d r o a = tt
  Settled-Onward (s ∷ slots) c d r o a =
      (o.slots s (inl r.0.outside) a.0, Settled-Onward slots c d r.1 o a.1)
