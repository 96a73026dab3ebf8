-- ===== src/GenCopy/Copying/Scanned.antt =====
-- The roots of a minor collection, all together (src/algo/gen_copy_ms/young_copy.c).
use xgc.Barrier.Valid.{registered}
use xgc.GenCopy.{Forward, GenCopyState, MinorCtx, find_forward, evacuate_slots}
use xgc.GenCopy.Copying.{Spent, Scene, Good, IsScene, IsRoot, Inv, Settled, among}
use xgc.GenCopy.Copying.DirtyCards.{
  IsCard, CardsSettled, ScannedCards, scan_dirty_cards-ScannedCards,
}
use xgc.GenCopy.Copying.Keeping.{Rest, visited_cards}
use xgc.GenCopy.Copying.Scanning.{
  Inv-with, OldNow-with, HandlesMoved, HandlesMoved-Onward, ScannedHandles,
  scan_handles-ScannedHandles, visit_roots, Settled-Onward,
}
use xgc.GenCopy.Copying.Slots.{VisitedAll}
use xgc.GenCopy.Copying.Steps.{Onward-trans}
use xgc.GenCopy.Copying.Unchanged.{evacuate_slots-Rest}
use xgc.CardTable.Budget.{Within-refl}
use xgc.GenCopy.Ending.{free_count-le}
use xgc.GenCopy.Minor.{scan_handles, scan_dirty_cards, scan_all, start_minor}
use xgc.MarkSweep.{root_slots}
use xgc.Runtime.{Runtime, Handle}
use xgc.Worklist
use xgc.Prelude.{
  ℕ, ◌≡◌, refl, sym, ap, ◌∙◌, subst, Bool, true, none, some, List, [], Ptr, All, arith, inl,
}

module _ (sc : Scene) (k : IsScene sc) (granted : (n : ℕ) → (sc.answers n).push_granted ≡ true)
    (rt : Runtime GenCopyState) (same : rt.memory ≡ sc.memory) where
  abbrev g : ℕ
  g = rt.barriers.old_to_young.card_granularity

  abbrev first : MinorCtx
  first = start_minor rt sc.state

  nothing_found : (p : Ptr) (A : Type 0) → {f : Forward} → find_forward [] p ≡ some f → A
  nothing_found p A e = absurd (never e)
    where
      never : {f : Forward} → ¬ (find_forward [] p ≡ some f)
      never e = unfold find_forward in cc

  first-Inv :
      Worklist.Stack.IsValid first.wl
      → rt.barriers ≡ sc.barriers
      → rt.heap ≡ sc.heap
      → Inv sc [] first
  first-Inv v eq heap = record {
    fund = λ fd. record {
      all = refl;
      spent =
          subst (λ b. Spent sc b 0) (sym eq)
            (fd.valid, Within-refl sc.barriers.old_to_young sc.block);
      old = λ s.
          OldNow-with sc 0 sc.barriers rt.barriers sc.heap rt.heap sc.memory rt.memory
            sc.state.old_objects (λ q. ap (λ b. registered b q) eq) heap same
            (record {
              agrees = s.agrees;
              fresh = λ m h. s.fresh m;
              outside = s.outside;
              count = omega arith;
              bytes = omega arith;
              young = record { base = refl; capacity = refl; used = refl };
            });
      free = omega (arith, free_count-le [] sc.state.nursery_space sc.state.nursery_capacity);
    };
    space = refl;
    capacity = refl;
    count = omega arith;
    stack_valid = v;
    young_header = λ p y. ap (λ m. m.header p) same;
    young_slot = λ p y. ap (λ m. m.slot p) same;
    outside_header = λ p o. ap (λ m. m.header p) same;
    outside_slot = λ s o. inl (ap (λ m. m.slot s) same);
    placed = λ p f e. nothing_found p _ e;
    distinct = λ p q f h e e' at. nothing_found p _ e;
    copy_header = λ p f e. nothing_found p _ e;
    copy_slot = λ p f o e lt. nothing_found p _ e;
    stacked = λ x m. absurd (empty x m);
    done = λ p f e. nothing_found p _ e;
  }
    where
      empty : (x : Ptr) → ¬ (among x (Worklist.Stack.stack first.wl) ≡ true)
      empty x m = unfold among Worklist.Stack.stack_of in cc

  -- What the roots are, and that they are good.
  pub record RootsGood : Type 0 where
    pub handles : All (λ h. Good sc h.target) rt.handles
    pub roots : All (IsRoot sc) (root_slots rt)
    pub cards : All (IsCard sc k granted g) (visited_cards rt.barriers.old_to_young)
    pub worklist : Worklist.Stack.IsValid first.wl
    pub barriers : rt.barriers ≡ sc.barriers
    pub heap : rt.heap ≡ sc.heap

  -- After the scan.
  pub record ScannedAll (d : MinorCtx) : Type 0 where
    pub inv : Inv sc [] d
    pub handles : HandlesMoved sc d rt.handles d.rt.handles
    pub roots : All (λ s. Settled sc d (d.rt.memory.slot s)) (root_slots rt)
    pub cards : CardsSettled sc k granted g d (visited_cards rt.barriers.old_to_young)

  module _ (good : RootsGood) (owners_granted : ℕ → Bool) where
    scanned :
        ScannedHandles sc k granted first rt.handles (scan_handles sc.answers first rt.handles)
    scanned =
        scan_handles-ScannedHandles sc k granted first rt.handles
          (first-Inv good.worklist good.barriers good.heap) good.handles

    abbrev with_handles : MinorCtx
    with_handles =
        let r = scan_handles sc.answers first rt.handles in
        record (r.0) { rt = record (r.0.rt) { handles = r.1 } }

    with_handles-Inv : Inv sc [] with_handles
    with_handles-Inv =
        let r = scan_handles sc.answers first rt.handles in
        Inv-with sc [] r.0 (record (r.0.rt) { handles = r.1 }) refl
          (λ fd. (scanned.inv.fund fd).spent) (λ q. refl) refl scanned.inv

    same_roots : root_slots with_handles.rt ≡ root_slots rt
    same_roots = ap (λ o. elim o [ none ↦ [] | some slots ↦ slots ]) scanned.rest.scan_roots

    abbrev with_roots : MinorCtx
    with_roots = evacuate_slots sc.answers with_handles (root_slots with_handles.rt)

    with_roots-VisitedAll :
        VisitedAll sc k granted (root_slots with_handles.rt) with_handles with_roots
    with_roots-VisitedAll =
        visit_roots sc k granted (root_slots with_handles.rt) with_handles with_handles-Inv
          (subst (All (IsRoot sc)) (sym same_roots) good.roots)

    roots-Rest : Rest with_handles.rt with_roots.rt
    roots-Rest = evacuate_slots-Rest sc.answers with_handles (root_slots with_handles.rt)

    same_cards :
        visited_cards with_roots.rt.barriers.old_to_young ≡ visited_cards rt.barriers.old_to_young
    same_cards = roots-Rest.cards ∙ scanned.rest.cards

    same_granularity : with_roots.rt.barriers.old_to_young.card_granularity ≡ g
    same_granularity = roots-Rest.granularity ∙ scanned.rest.granularity

    abbrev with_cards : MinorCtx
    with_cards = scan_dirty_cards sc.answers owners_granted true with_roots

    with_cards-ScannedCards : ScannedCards sc k granted g owners_granted with_roots with_cards
    with_cards-ScannedCards =
        scan_dirty_cards-ScannedCards sc k granted g owners_granted with_roots
          (subst (All (IsCard sc k granted g)) (sym same_cards) good.cards)
          with_roots-VisitedAll.inv same_granularity

    scan_all_eq : scan_all sc.answers owners_granted true first ≡ with_cards
    unfolding scan_all
    scan_all_eq = refl

    pub scan_all-ScannedAll : ScannedAll (scan_all sc.answers owners_granted true first)
    scan_all-ScannedAll = subst ScannedAll (sym scan_all_eq) (
        let v = with_roots-VisitedAll in
        let c = with_cards-ScannedCards in
        let hs = (scan_handles sc.answers first rt.handles).1 in
        let on = Onward-trans sc with_handles with_roots with_cards v.onward c.onward in
        record {
          inv = c.inv;
          handles =
              subst (HandlesMoved sc with_cards rt.handles) (sym (c.handles ∙ roots-Rest.handles))
                (HandlesMoved-Onward sc with_handles with_cards rt.handles hs on (moved hs));
          roots =
              Settled-Onward sc k granted (root_slots rt) with_roots with_cards good.roots c.onward
                (subst (All (λ s. Settled sc with_roots (with_roots.rt.memory.slot s))) same_roots
                  v.settled);
          cards = subst (CardsSettled sc k granted g with_cards) same_cards c.settled;
        })
      where
        moved :
            (hs : List Handle)
            → HandlesMoved sc with_handles rt.handles (scan_handles sc.answers first rt.handles).1
        moved hs =
            HandlesMoved-Onward sc (scan_handles sc.answers first rt.handles).0 with_handles
              rt.handles (scan_handles sc.answers first rt.handles).1
              (record { ext = λ p f e. e; all = λ x. x; slots = λ s t x. x }) scanned.moved
