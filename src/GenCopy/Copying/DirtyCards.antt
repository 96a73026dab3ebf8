-- ===== src/GenCopy/Copying/DirtyCards.antt =====
-- The dirty cards of old objects, visited by a minor collection
-- (src/algo/gen_copy_ms/young_copy.c).
use xgc.Barrier
use xgc.Barrier.{BarrierSet}
use xgc.CardTable.Snapshots.{DirtyCardSnapshot, snapshot, visit_each, visit_dirty, dirty_count}
use xgc.GenCopy.{MinorCtx, evacuate_slots}
use xgc.GenCopy.Copying.{Scene, Outside, IsScene, IsRoot, Inv, Settled}
use xgc.GenCopy.Copying.Clearing.{clear_owners-Spent, clear_owners-registered}
use xgc.GenCopy.Copying.Keeping.{Rest, Rest-refl, Rest-trans, visited_cards}
use xgc.GenCopy.Copying.Scanning.{visit_roots, Inv-with, Settled-Onward}
use xgc.GenCopy.Copying.Steps.{Onward, Onward-refl, Onward-trans}
use xgc.GenCopy.Copying.Unchanged.{evacuate_slots-Rest}
use xgc.GenCopy.Minor.{DirtyCardVisit, visit_dirty_card, clear_owners, scan_dirty_cards}
use xgc.GenCopy.MinorEnds.{remember_same}
use xgc.Object.{Memory, trace_object_slots_in_range}
use xgc.Prelude.{
  ℕ, ◌≡◌, refl, sym, ◌∙◌, ap, subst, Bool, true, false, List, [], ◌∷◌, ◌==◌, Ptr, null, All,
  Bool-cases, inl, inr, add_size, mul_size, if◌then◌else◌,
}

-- The slots that the visit of a card hands to the visitor, in a memory.
abbrev pub slots_of : Memory → ℕ → DirtyCardSnapshot → List Ptr
slots_of m card_size d =
    trace_object_slots_in_range m d.owner (mul_size d.card_index card_size)
      (add_size (mul_size d.card_index card_size) card_size)

trace_same :
    (m m' : Memory) (q : Ptr) (lo hi : ℕ)
    → m.header q ≡ m'.header q
    → trace_object_slots_in_range m q lo hi ≡ trace_object_slots_in_range m' q lo hi
unfolding trace_object_slots_in_range
trace_same m m' q lo hi e = rw (e, trace_object_slots_in_range) refl

module _ (sc : Scene) (k : IsScene sc) (granted : (n : ℕ) → (sc.answers n).push_granted ≡ true)
    (g : ℕ) where
  -- A card of an object outside, with root slots only.
  pub record IsCard (d : DirtyCardSnapshot) : Type 0 where
    pub outside : Outside sc d.owner
    pub slots : All (IsRoot sc) (slots_of sc.memory g d)

  abbrev pub CardsSettled : MinorCtx → List DirtyCardSnapshot → Type 0
  CardsSettled c ds =
      All (λ d. All (λ s. Settled sc c (c.rt.memory.slot s)) (slots_of sc.memory g d)) ds

  CardsSettled-Onward :
      (ds : List DirtyCardSnapshot) (c d : MinorCtx)
      → All IsCard ds
      → Onward sc c d
      → CardsSettled c ds
      → CardsSettled d ds
  CardsSettled-Onward [] c d r o a = tt
  CardsSettled-Onward (x ∷ ds) c d r o a = (
    Settled-Onward sc k granted (slots_of sc.memory g x) c d r.0.slots o a.0,
    CardsSettled-Onward ds c d r.1 o a.1,
  )

  pub record VisitedCards (ds : List DirtyCardSnapshot) (c d : MinorCtx) : Type 0 where
    pub inv : Inv sc [] d
    pub onward : Onward sc c d
    pub rest : Rest c.rt d.rt
    pub settled : CardsSettled d ds

  module _ (owners_granted : ℕ → Bool) where
    visit_one :
        (x : DirtyCardSnapshot) (v : DirtyCardVisit)
        → IsCard x
        → Inv sc [] v.minor
        → v.minor.rt.barriers.old_to_young.card_granularity ≡ g
        → VisitedCards
            (x ∷ [])
            v.minor
            (visit_dirty_card sc.answers owners_granted x.owner x.card_index v).minor
    unfolding visit_dirty_card
    visit_one x v card i same = elim (Bool-cases (x.owner == null)) [
      | inl h ↦
          rw (h, visit_dirty_card)
            (record {
              inv = i;
              onward = Onward-refl sc v.minor;
              rest = Rest-refl v.minor.rt;
              settled = (
                subst (All (λ s. Settled sc v.minor (v.minor.rt.memory.slot s))) (sym (none_of h))
                    tt,
                tt,
              );
            })
      | inr h ↦
          rw (h, visit_dirty_card)
            (subst (VisitedCards (x ∷ []) v.minor)
              (sym (remember_same sc.answers owners_granted true _ x.owner))
              (subst
                (λ slots. VisitedCards (x ∷ []) v.minor (evacuate_slots sc.answers v.minor slots))
                (sym slots_eq) here))
    ]
      where
        none_of : (x.owner == null) ≡ true → slots_of sc.memory g x ≡ []
        none_of h = unfold trace_object_slots_in_range in rw h refl

        slots_eq :
            slots_of v.minor.rt.memory v.minor.rt.barriers.old_to_young.card_granularity x
            ≡ slots_of sc.memory g x
        slots_eq =
            ap (λ size. slots_of v.minor.rt.memory size x) same
            ∙ trace_same v.minor.rt.memory sc.memory x.owner _ _
                (i.outside_header x.owner card.outside)

        here :
            VisitedCards
              (x ∷ [])
              v.minor
              (evacuate_slots sc.answers v.minor (slots_of sc.memory g x))
        here =
            let r = visit_roots sc k granted (slots_of sc.memory g x) v.minor i card.slots in
            record {
              inv = r.inv;
              onward = r.onward;
              rest = evacuate_slots-Rest sc.answers v.minor (slots_of sc.memory g x);
              settled = (r.settled, tt);
            }

    visit_each-VisitedCards :
        (ds : List DirtyCardSnapshot) (v : DirtyCardVisit)
        → All IsCard ds
        → Inv sc [] v.minor
        → v.minor.rt.barriers.old_to_young.card_granularity ≡ g
        → VisitedCards ds v.minor
            (visit_each (visit_dirty_card sc.answers owners_granted) ds v).minor
    unfolding visit_each
    visit_each-VisitedCards [] v a i same = record {
      inv = i;
      onward = Onward-refl sc v.minor;
      rest = Rest-refl v.minor.rt;
      settled = tt;
    }
    visit_each-VisitedCards (x ∷ ds) v a i same =
        let mid = visit_dirty_card sc.answers owners_granted x.owner x.card_index v in
        let one = visit_one x v a.0 i same in
        let r = visit_each-VisitedCards ds mid a.1 one.inv (one.rest.granularity ∙ same) in
        record {
          inv = r.inv;
          onward = Onward-trans sc v.minor mid.minor _ one.onward r.onward;
          rest = Rest-trans v.minor.rt mid.minor.rt _ one.rest r.rest;
          settled = (
            (CardsSettled-Onward (x ∷ []) mid.minor _ (a.0, tt) r.onward one.settled).0,
            r.settled,
          );
        }

    -- After the scan of the dirty cards.
    pub record ScannedCards (c d : MinorCtx) : Type 0 where
      pub inv : Inv sc [] d
      pub onward : Onward sc c d
      pub handles : d.rt.handles ≡ c.rt.handles
      pub settled : CardsSettled d (visited_cards c.rt.barriers.old_to_young)

    pub scan_dirty_cards-ScannedCards :
        (c : MinorCtx)
        → All IsCard (visited_cards c.rt.barriers.old_to_young)
        → Inv sc [] c
        → c.rt.barriers.old_to_young.card_granularity ≡ g
        → ScannedCards c (scan_dirty_cards sc.answers owners_granted true c)
    unfolding scan_dirty_cards Barrier.visit_dirty_cards visit_dirty
    scan_dirty_cards-ScannedCards c a i same =
        let start : DirtyCardVisit = record {
          minor = c;
          owners_to_clear = [];
          owner_capacity = 0;
        } in
        elim (Bool-cases (dirty_count c.rt.barriers.old_to_young.entries == 0)) [
          | inl h ↦
              rw (h, scan_dirty_cards)
                (record {
                  inv =
                      Inv-with sc [] c (record (c.rt) { barriers = clear_owners c.rt.barriers [] })
                        refl
                        (λ fd. clear_owners-Spent sc [] c.rt.barriers c.requests (i.fund fd).spent)
                        (clear_owners-registered [] c.rt.barriers) refl i;
                  onward = record { ext = λ p f e. e; all = λ x. x; slots = λ s t x. x };
                  handles = refl;
                  settled =
                      cards_if
                        (record c {
                          rt = record (c.rt) { barriers = clear_owners c.rt.barriers [] };
                        })
                        true h tt;
                })
          | inr h ↦
              let r =
                visit_each-VisitedCards (snapshot c.rt.barriers.old_to_young.entries) start
                  (subst
                    (λ (b : Bool).
                      All IsCard (if b then [] else snapshot c.rt.barriers.old_to_young.entries))
                    h a)
                  i same in
              let d =
                visit_each (visit_dirty_card sc.answers owners_granted)
                  (snapshot c.rt.barriers.old_to_young.entries) start in
              rw (h, scan_dirty_cards)
                (record {
                  inv =
                      Inv-with sc [] d.minor
                        (record (d.minor.rt) {
                          barriers = clear_owners d.minor.rt.barriers d.owners_to_clear;
                        })
                        refl
                        (λ fd.
                          clear_owners-Spent sc d.owners_to_clear d.minor.rt.barriers
                            d.minor.requests (r.inv.fund fd).spent)
                        (clear_owners-registered d.owners_to_clear d.minor.rt.barriers) refl r.inv;
                  onward = record {
                    ext = r.onward.ext;
                    all = r.onward.all;
                    slots = r.onward.slots;
                  };
                  handles = r.rest.handles;
                  settled =
                      cards_if
                        (record (d.minor) {
                          rt = record (d.minor.rt) {
                            barriers = clear_owners d.minor.rt.barriers d.owners_to_clear;
                          };
                        })
                        false h r.settled;
                })
        ]
      where
        cards_if :
            (d : MinorCtx) (b : Bool)
            → (dirty_count c.rt.barriers.old_to_young.entries == 0) ≡ b
            → CardsSettled d (if b then [] else snapshot c.rt.barriers.old_to_young.entries)
            → CardsSettled d (visited_cards c.rt.barriers.old_to_young)
        cards_if d b e s =
            subst
              (λ (x : Bool).
                CardsSettled d (if x then [] else snapshot c.rt.barriers.old_to_young.entries))
              (sym e) s
