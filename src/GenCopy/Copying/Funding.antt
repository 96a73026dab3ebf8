-- ===== src/GenCopy/Copying/Funding.antt =====
-- A promotion for which all is granted succeeds (src/algo/gen_copy_ms/young_copy.c).
use xgc.Barrier
use xgc.Barrier.{BarrierSet, counters_of}
use xgc.Barrier.Valid.{registered, register_owner_lem}
use xgc.Heap
use xgc.CardTable.Budget.{register_owner-Within, array_fits, size_fits, cards_fit}
use xgc.GenCopy.{
  GenCopyState, Answers, MinorCtx, find_forward, size_at, add_old_node, copy_object, copy_out,
  barriers_or,
}
use xgc.GenCopy.Copying.{Scene, IsScene, Inv, Funded, Spent}
use xgc.GenCopy.Copying.Blocks.{copied}
use xgc.GenCopy.Ending.{free_count_used}
use xgc.GenCopy.Forwarding.{added, refused}
use xgc.Runtime.{Runtime}
use xgc.Prelude.{
  ℕ, ◌+◌, ◌<◌, ◌≤◌, ◌≡◌, ◌≢◌, sym, ap, ◌∙◌, subst, Bool, true, false, ◌&&◌, ◌||◌, ◌==◌, ◌∷◌, none,
  some, List, Option, Ptr, null, arith, leb, ltb, if◌then◌else◌,
}

add_old_node_granted :
    (a : Answers) (rt : Runtime GenCopyState) (state : GenCopyState) (obj : Ptr)
    → obj ≢ null
    → a.node_granted ≡ true
    → (Barrier.register_owner a.array_granted a.bits_granted
        (some rt.barriers)
        obj
        (size_at rt.memory obj)).0
      ≡ true
    → (add_old_node a rt state obj).0 ≡ true
unfolding add_old_node
add_old_node_granted a rt state obj ne node h = ground (arith, h, node)

add_old_node-barriers :
    (a : Answers) (rt : Runtime GenCopyState) (state : GenCopyState) (obj : Ptr)
    → (add_old_node a rt state obj).0 ≡ true
    → (add_old_node a rt state obj).1.barriers
      ≡ barriers_or
          (Barrier.register_owner a.array_granted a.bits_granted
            (some rt.barriers)
            obj
            (size_at rt.memory obj)).1
          rt.barriers
unfolding add_old_node
add_old_node-barriers a rt state obj h = ground (arith, h)

add_old_node_result :
    (a : Answers) (rt : Runtime GenCopyState) (state : GenCopyState) (obj : Ptr)
    → (add_old_node a rt state obj).0 ≡ true
    → ((add_old_node a rt state obj).1.heap ≡ Heap.record_old_alloc rt.heap (size_at rt.memory obj))
      × ((add_old_node a rt state obj).2.old_objects
          ≡ record { obj = obj; marked = false } ∷ state.old_objects)
unfolding add_old_node
add_old_node_result a rt state obj h = (ground (arith, h), ground (arith, h))

module _ (sc : Scene) (k : IsScene sc) (pending : List Ptr) (ctx : MinorCtx)
    (i : Inv sc pending ctx) (obj : Ptr) (start : sc.starts obj ≡ true)
    (fresh : find_forward ctx.state.forwarded obj ≡ none) (fd : Funded sc) where
  abbrev a : Answers
  a = sc.answers ctx.requests

  abbrev pub size : ℕ
  size = size_at (copied a ctx obj) a.copy

  pub size_eq : size ≡ size_at sc.memory obj
  size_eq =
      ap (λ o. elim o [ none ↦ 0 | some h ↦ h.size ])
        (self a.copy ∙ i.young_header obj (k.inside obj start).0)
    where
      self :
          (p : Ptr)
          → (copy_object ctx.rt.memory obj p (size_at ctx.rt.memory obj)).header p
            ≡ ctx.rt.memory.header obj
      self p = unfold copy_object in ground arith

  -- There are nursery addresses that have not been promoted.
  pub left : ctx.requests < sc.state.nursery_capacity
  left =
      let fund = i.fund fd in
      omega (
        arith,
        fund.free,
        free_count_used (record { from = obj; to = 0 }) ctx.state.forwarded sc.state.nursery_space
            sc.state.nursery_capacity fresh,
        one,
      )
    where
      one :
          ◌≡◌ {A = ℕ}
            (if leb sc.state.nursery_space obj
                && ltb obj (sc.state.nursery_space + sc.state.nursery_capacity)
              then 1
              else 0)
            1
      one = ground (arith, (k.inside obj start).0)

  abbrev registration : Bool × Option BarrierSet
  registration =
      Barrier.register_owner a.array_granted a.bits_granted (some ctx.rt.barriers) a.copy size

  abbrev granted_registration : Bool × Option BarrierSet
  granted_registration = Barrier.register_owner true true (some ctx.rt.barriers) a.copy size

  registration_eq : granted_registration ≡ registration
  registration_eq =
      let (_, _, _, array, bits) = fd.granted ctx.requests in
      λ t. Barrier.register_owner (sym array t) (sym bits t) (some ctx.rt.barriers) a.copy size

  abbrev Succeeds : Bool × Option BarrierSet → Type 0
  Succeeds r =
      (r.0 ≡ true)
      × Spent sc (barriers_or r.1 ctx.rt.barriers) (ctx.requests + 1)
      × ((q : Ptr)
          → registered (barriers_or r.1 ctx.rt.barriers) q
            ≡ (a.copy == q || registered ctx.rt.barriers q))

  granted-Succeeds : Succeeds granted_registration
  unfolding Barrier.register_owner
  granted-Succeeds =
      let fund = i.fund fd in
      let (valid, within) = fund.spent in
      let table = ctx.rt.barriers.old_to_young in
      let c = counters_of ctx.rt.barriers in
      let (ne, _, _, _, _) = fd.granted ctx.requests in
      let sized : size ≢ 0 = λ z. fd.sized obj start (sym size_eq ∙ z) in
      let small : size ≤ sc.block = omega (arith, size_eq, (k.inside obj start).2) in
      let f1 =
        array_fits sc.barriers.old_to_young table c valid.table valid.tracks a.copy size
          ctx.requests sc.state.nursery_capacity sc.block within left fd.affords ne sized small in
      let f2 =
        size_fits sc.barriers.old_to_young table c valid.table valid.tracks a.copy size ctx.requests
          sc.state.nursery_capacity sc.block within left fd.affords ne sized small in
      let f3 =
        cards_fit sc.barriers.old_to_young table c valid.table valid.tracks a.copy size ctx.requests
          sc.state.nursery_capacity sc.block within left fd.affords ne sized small in
      let (done, within') =
        register_owner-Within sc.barriers.old_to_young table c valid.table valid.tracks a.copy size
          ctx.requests sc.state.nursery_capacity sc.block within left fd.affords ne sized small in
      let (valid', _, owners) =
        register_owner_lem ctx.rt.barriers valid a.copy true true size f1 f2 f3 in
      (done, (valid', within'), λ q. ground (arith, owners q, done))

  registration-Succeeds : Succeeds registration
  registration-Succeeds = subst Succeeds registration_eq granted-Succeeds

  abbrev copied_rt : Runtime GenCopyState
  copied_rt = record (ctx.rt) { memory = copied a ctx obj }

  added_lem : (added a ctx obj).0 ≡ true
  added_lem =
      let (ne, _, node, _, _) = fd.granted ctx.requests in
      add_old_node_granted a copied_rt ctx.state a.copy ne node registration-Succeeds.0

  pub never_refused : refused a ctx obj ≡ true → ⊥
  unfolding refused
  never_refused h =
      let (ne, forward, _, _, _) = fd.granted ctx.requests in
      ground (arith, h, added_lem, forward, ne)

  made_barriers :
      refused a ctx obj ≡ false → (copy_out a ctx obj).1.rt.barriers ≡ (added a ctx obj).1.barriers
  unfolding copy_out refused
  made_barriers h = ground (arith, h)

  pub made-Spent :
      refused a ctx obj ≡ false → Spent sc (copy_out a ctx obj).1.rt.barriers (ctx.requests + 1)
  made-Spent h =
      subst (λ b. Spent sc b (ctx.requests + 1))
        (sym (made_barriers h ∙ add_old_node-barriers a copied_rt ctx.state a.copy added_lem))
        registration-Succeeds.1

  -- The registered owners, the account and the nodes after the copy.
  pub made-registered :
      refused a ctx obj ≡ false
      → (q : Ptr)
      → registered (copy_out a ctx obj).1.rt.barriers q
        ≡ (a.copy == q || registered ctx.rt.barriers q)
  made-registered h =
      subst (λ b. (q : Ptr) → registered b q ≡ (a.copy == q || registered ctx.rt.barriers q))
        (sym (made_barriers h ∙ add_old_node-barriers a copied_rt ctx.state a.copy added_lem))
        registration-Succeeds.2

  pub made_heap :
      refused a ctx obj ≡ false
      → (copy_out a ctx obj).1.rt.heap ≡ Heap.record_old_alloc ctx.rt.heap size
  unfolding copy_out refused
  made_heap h = ground (arith, h, (add_old_node_result a copied_rt ctx.state a.copy added_lem).0)

  pub made_objects :
      refused a ctx obj ≡ false
      → (copy_out a ctx obj).1.state.old_objects
        ≡ record { obj = a.copy; marked = false } ∷ ctx.state.old_objects
  unfolding copy_out refused
  made_objects h = ground (arith, h, (add_old_node_result a copied_rt ctx.state a.copy added_lem).1)
