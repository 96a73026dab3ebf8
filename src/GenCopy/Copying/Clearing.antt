-- ===== src/GenCopy/Copying/Clearing.antt =====
-- Clearing the owners of dirty cards keeps the room for registrations
-- (src/algo/gen_copy_ms/young_copy.c).
use xgc.Barrier
use xgc.Barrier.{BarrierSet, counters_of, written}
use xgc.Barrier.Valid.{registered, IsValid, Holds, Holds-map, clear_owner_dirty_lem}
use xgc.CardTable
use xgc.CardTable.{CardTable, Counters}
use xgc.CardTable.Budget.{Within, clear_owner-Within}
use xgc.CardTable.Registered.{clear_owner-is_registered}
use xgc.CardTable.Growing.{is_registered}
use xgc.GenCopy.{barriers_or}
use xgc.GenCopy.Copying.{Scene, Spent}
use xgc.GenCopy.Minor.{clear_owners}
use xgc.Prelude.{ℕ, ◌≡◌, refl, sym, subst, ap, ◌∙◌, Option, none, some, List, [], ◌∷◌, Ptr}

pub written_table :
    (b : BarrierSet) (r : Option Counters × CardTable) → (written b r).old_to_young ≡ r.1
written_table b (none, t) = refl
written_table b (some c, t) = refl

pub held :
    (b : BarrierSet) (P : BarrierSet → Type 0) (o : Option BarrierSet)
    → Holds P o
    → P (barriers_or o b)
held b P none h = absurd h
held b P (some x) h = h

clear_owner-registered :
    (b : BarrierSet) (owner q : Ptr)
    → registered (barriers_or (Barrier.clear_owner_dirty (some b) owner) b) q ≡ registered b q
unfolding Barrier.clear_owner_dirty
clear_owner-registered b owner q =
    ap (λ t. is_registered t q)
      (written_table b (CardTable.clear_owner (some (counters_of b)) b.old_to_young owner))
    ∙ clear_owner-is_registered b.old_to_young (some (counters_of b)) owner q

-- No owner is forgotten.
pub clear_owners-registered :
    (owners : List Ptr) (b : BarrierSet) (q : Ptr)
    → registered (clear_owners b owners) q ≡ registered b q
unfolding clear_owners
clear_owners-registered [] b q = refl
clear_owners-registered (o ∷ owners) b q =
    clear_owners-registered owners _ q ∙ clear_owner-registered b o q

module _ (sc : Scene) where
  clear_owner-Spent :
      (b : BarrierSet) (owner : Ptr) (n : ℕ)
      → Spent sc b n
      → Spent sc (barriers_or (Barrier.clear_owner_dirty (some b) owner) b) n
  clear_owner-Spent b owner n (valid, within) = (
    held b IsValid (Barrier.clear_owner_dirty (some b) owner) (
        Holds-map _ IsValid (Barrier.clear_owner_dirty (some b) owner)
          (clear_owner_dirty_lem b valid owner) (λ x h. h.0)),
    table,
  )
    where
      table :
          Within sc.barriers.old_to_young
            (barriers_or (Barrier.clear_owner_dirty (some b) owner) b).old_to_young
            n
            sc.block
      table =
          unfold Barrier.clear_owner_dirty in
          subst (λ t. Within sc.barriers.old_to_young t n sc.block)
            (sym
              (written_table b (CardTable.clear_owner (some (counters_of b)) b.old_to_young owner)))
            (clear_owner-Within sc.barriers.old_to_young b.old_to_young (counters_of b) owner n
              sc.block within)

  pub clear_owners-Spent :
      (owners : List Ptr) (b : BarrierSet) (n : ℕ)
      → Spent sc b n
      → Spent sc (clear_owners b owners) n
  unfolding clear_owners
  clear_owners-Spent [] b n s = s
  clear_owners-Spent (o ∷ owners) b n s = clear_owners-Spent owners _ n (clear_owner-Spent b o n s)
