-- ===== src/GenCopy/Copying/Keeping.antt =====
-- What promotions leave alone in the runtime: the hooks, the handles, and the dirty cards, since a
-- promoted object is registered clean (src/algo/gen_copy_ms/young_copy.c, src/core/card_table.c).
use xgc.Barrier
use xgc.Barrier.{BarrierSet}
use xgc.CardTable.{CardEntry, CardTable, find_entry}
use xgc.CardTable.Registration
use xgc.CardTable.Registration.{grow, card_count_for}
use xgc.CardTable.Snapshots.{DirtyCardSnapshot, dirty_count, snapshot}
use xgc.Bitmap
use xgc.GenCopy.{GenCopyState, Answers, size_at, add_old_node, barriers_or}
use xgc.Runtime.{Runtime}
use xgc.Prelude.{
  ℕ, ◌≡◌, refl, ◌∙◌, ap, Bool, not, ◌&&◌, ◌||◌, some, List, [], ◌∷◌, ◌++◌, ◌==◌, if◌then◌else◌,
  length, Ptr, null, arith, is_none, Bool-cases, inl, inr,
}

-- The cards that a visit with a snapshot visits.
abbrev pub visited_cards : CardTable → List DirtyCardSnapshot
visited_cards t = if dirty_count t.entries == 0 then [] else snapshot t.entries

pub record Rest (a b : Runtime GenCopyState) : Type 0 where
  pub scan_roots : b.scan_roots ≡ a.scan_roots
  pub handles : b.handles ≡ a.handles
  pub cards : visited_cards b.barriers.old_to_young ≡ visited_cards a.barriers.old_to_young
  pub granularity :
      b.barriers.old_to_young.card_granularity ≡ a.barriers.old_to_young.card_granularity

pub Rest-refl : (a : Runtime GenCopyState) → Rest a a
Rest-refl a = record { scan_roots = refl; handles = refl; cards = refl; granularity = refl }

pub Rest-trans : (a b c : Runtime GenCopyState) → Rest a b → Rest b c → Rest a c
Rest-trans a b c h k = record {
  scan_roots = k.scan_roots ∙ h.scan_roots;
  handles = k.handles ∙ h.handles;
  cards = k.cards ∙ h.cards;
  granularity = k.granularity ∙ h.granularity;
}

module _ (e : CardEntry) (clean : e.dirty_card_count ≡ 0) where
  dirty_count-append : (es : List CardEntry) → dirty_count (es ++ e ∷ []) ≡ dirty_count es
  unfolding dirty_count
  dirty_count-append [] = ground (arith, clean)
  dirty_count-append (x ∷ es) = rw (dirty_count-append es) refl

  snapshot-append : (es : List CardEntry) → snapshot (es ++ e ∷ []) ≡ snapshot es
  unfolding snapshot
  snapshot-append [] = ground (arith, clean)
  snapshot-append (x ∷ es) = rw (snapshot-append es) refl

-- The table that a registration leaves: the cards to visit are the same.
abbrev SameCards : CardTable → CardTable → Type 0
SameCards t u = (visited_cards u ≡ visited_cards t) × (u.card_granularity ≡ t.card_granularity)

appended-SameCards :
    (t u : CardTable) (e : CardEntry)
    → e.dirty_card_count ≡ 0
    → u.entries ≡ t.entries ++ e ∷ []
    → u.card_granularity ≡ t.card_granularity
    → SameCards t u
appended-SameCards t u e clean same g =
    (rw (same, dirty_count-append e clean t.entries, snapshot-append e clean t.entries) refl, g)

grow_same :
    (t : CardTable)
    → ((grow t).entries ≡ t.entries) × ((grow t).card_granularity ≡ t.card_granularity)
unfolding grow
grow_same t = (ground arith, ground arith)

register_owner-SameCards :
    (array_granted bits_granted : Bool) (t : CardTable) (owner : Ptr) (owner_size : ℕ)
    → SameCards t (Registration.register_owner array_granted bits_granted t owner owner_size).1
unfolding Registration.register_owner
register_owner-SameCards array_granted bits_granted t owner owner_size =
    elim (Bool-cases (owner == null || owner_size == 0)) [
      | inl h ↦ rw (h, Registration.register_owner) (refl, refl)
      | inr h ↦ elim (Bool-cases (not (is_none (find_entry t owner)))) [
        | inl k ↦ rw (h, k, Registration.register_owner) (refl, refl)
        | inr k ↦ elim (Bool-cases (length t.entries == t.capacity && not array_granted)) [
          | inl g ↦ rw (h, k, g, Registration.register_owner) (refl, refl)
          | inr g ↦
              let (es, gran) = grow_same t in
              let cards = card_count_for (grow t) owner_size in
              let entry : CardEntry = record {
                owner_base = owner;
                owner_size = owner_size;
                card_count = cards;
                dirty_card_count = 0;
                dirty_map = Bitmap.init bits_granted cards;
              } in
              elim (Bool-cases (not ((Bitmap.init bits_granted cards).bit_count == cards))) [
                | inl b ↦ rw (h, k, g, b, Registration.register_owner) (rw es refl, gran)
                | inr b ↦
                    rw (h, k, g, b, Registration.register_owner)
                      (appended-SameCards t
                        (record (grow t) { entries = (grow t).entries ++ entry ∷ [] }) entry refl
                        (ap (λ l. l ++ entry ∷ []) es) gran)
              ]
        ]
      ]
    ]

registered_barriers : Answers → BarrierSet → Ptr → ℕ → BarrierSet
registered_barriers a b obj size =
    barriers_or (Barrier.register_owner a.array_granted a.bits_granted (some b) obj size).1 b

registered-SameCards :
    (a : Answers) (b : BarrierSet) (obj : Ptr) (size : ℕ)
    → SameCards b.old_to_young (registered_barriers a b obj size).old_to_young
unfolding Barrier.register_owner registered_barriers
registered-SameCards a b obj size =
    register_owner-SameCards a.array_granted a.bits_granted b.old_to_young obj size

pub add_old_node-Rest :
    (a : Answers) (rt : Runtime GenCopyState) (state : GenCopyState) (obj : Ptr)
    → Rest rt (add_old_node a rt state obj).1
unfolding add_old_node registered_barriers
add_old_node-Rest a rt state obj =
    let (cards, gran) = registered-SameCards a rt.barriers obj (size_at rt.memory obj) in
    elim (Bool-cases (obj == null || not a.node_granted)) [
      | inl h ↦ rw (h, add_old_node) (Rest-refl rt)
      | inr h ↦
          elim (Bool-cases
            (Barrier.register_owner a.array_granted a.bits_granted (some rt.barriers) obj
              (size_at rt.memory obj)).0) [
                | inl k ↦
                    rw (h, k, add_old_node)
                      (record {
                        scan_roots = refl;
                        handles = refl;
                        cards = cards;
                        granularity = gran;
                      })
                | inr k ↦
                    rw (h, k, add_old_node)
                      (record {
                        scan_roots = refl;
                        handles = refl;
                        cards = cards;
                        granularity = gran;
                      })
              ]
    ]
