-- ===== src/GenCopy/Adding.antt =====
-- What `gc_gen_add_old_node` leaves alone (src/algo/gen_copy_ms/young_copy.c).
use xgc.Barrier
use xgc.GenCopy.{GenCopyState, Answers, add_old_node, size_at}
use xgc.Runtime.{Runtime}
use xgc.Prelude.{◌≡◌, refl, ap, not, ◌||◌, some, ◌==◌, Ptr, null, Bool-cases, inl, inr}

module _ (a : Answers) (rt : Runtime GenCopyState) (state : GenCopyState) (obj : Ptr) where
  -- All but the barrier set, the account and the nodes.
  pub add_old_node_rest :
      ((add_old_node a rt state obj).1 ≡ record rt {
        barriers = (add_old_node a rt state obj).1.barriers;
        heap = (add_old_node a rt state obj).1.heap;
      })
      × ((add_old_node a rt state obj).2
          ≡ record state { old_objects = (add_old_node a rt state obj).2.old_objects })
  unfolding add_old_node
  add_old_node_rest = elim (Bool-cases (obj == null || not a.node_granted)) [
    | inl h ↦ rw (h, add_old_node) (refl, refl)
    | inr h ↦
        elim (Bool-cases
          (Barrier.register_owner a.array_granted a.bits_granted (some rt.barriers) obj
            (size_at rt.memory obj)).0) [
              | inl k ↦ rw (h, k, add_old_node) (refl, refl)
              | inr k ↦ rw (h, k, add_old_node) (refl, refl)
            ]
  ]

  pub add_old_node_same :
      ((add_old_node a rt state obj).2.nursery_space ≡ state.nursery_space)
      × ((add_old_node a rt state obj).2.nursery_capacity ≡ state.nursery_capacity)
      × ((add_old_node a rt state obj).2.forwarded ≡ state.forwarded)
  add_old_node_same =
      let s = add_old_node_rest.1 in
      (ap (λ x. x.nursery_space) s, ap (λ x. x.nursery_capacity) s, ap (λ x. x.forwarded) s)
