-- ===== src/MarkSweep/Draining.antt =====
-- The mark phase of src/algo/marksweep/ms.c marks exactly the reachable objects, and ends.
use xgc.MarkSweep.{MarkCtx, mark_slots, drain_worklist}
use xgc.MarkSweep.Nodes.{known, marked, unmarked_count, Distinct}
use xgc.MarkSweep.Visits.{Advanced, elem, referred, mark_slots-Advanced}
use xgc.Object.{Memory, object_slots}
use xgc.Worklist
use xgc.Worklist.Stack.{IsValid, stack, pop_lem, pop-null}
use xgc.Prelude.{
  ℕ, zero, suc, ◌+◌, ◌<◌, ◌≡◌, ◌⊎◌, ◌∙◌, ap, Bool, true, false, ◌||◌, some, [], ◌∷◌, arith, ◌==◌,
  Ptr, null, length, inl, inr, Bool-cases,
}

-- The objects of the collector that are roots, and those that a slot of a reachable object refers to.
pub data Reachable (own root : Ptr → Bool) (m : Memory) : Ptr → Type 0 where
  from_root : {q : Ptr} → root q ≡ true → own q ≡ true → Reachable own root m q
  from_slot :
      {p q : Ptr}
      → Reachable own root m p
      → referred m (object_slots m p) q ≡ true
      → own q ≡ true
      → Reachable own root m q

module _ (grants : ℕ → Bool) (granted : (n : ℕ) → grants n ≡ true) (m : Memory)
    (own root : Ptr → Bool) where
  -- Every marked object is reachable, every root is marked, and the objects that a marked object
  -- refers to are marked unless it is still on the stack.
  pub record Inv (c : MarkCtx) : Type 0 where
    pub owned : (q : Ptr) → known c.objects q ≡ own q
    pub valid : IsValid c.wl
    pub distinct : Distinct c.objects
    pub sound : (q : Ptr) → marked c.objects q ≡ true → Reachable own root m q
    pub roots : (q : Ptr) → root q ≡ true → own q ≡ true → marked c.objects q ≡ true
    pub grey : (q : Ptr) → elem q (stack c.wl) ≡ true → marked c.objects q ≡ true
    pub closed :
        (p q : Ptr)
        → marked c.objects p ≡ true
        → referred m (object_slots m p) q ≡ true
        → own q ≡ true
        → (elem p (stack c.wl) ≡ true) ⊎ (marked c.objects q ≡ true)

  -- One round of the loop: `obj` is popped and its slots are visited.
  module _ (c : MarkCtx) (i : Inv c) (wl : Worklist.Worklist) (obj : Ptr) (v : IsValid wl)
      (top : stack c.wl ≡ obj ∷ stack wl) where
    popped : MarkCtx
    popped = record c { wl = wl }

    grey_at : (q : Ptr) → elem q (stack c.wl) ≡ (obj == q || elem q (stack wl))
    grey_at q = ap (elem q) top

    obj_marked : marked c.objects obj ≡ true
    obj_marked = i.grey obj (grey_at obj ∙ ground arith)

    visited : MarkCtx
    unfolding popped
    visited = mark_slots grants m popped (object_slots m obj)

    visited-Advanced : Advanced (referred m (object_slots m obj)) popped visited
    unfolding visited
    visited-Advanced = mark_slots-Advanced grants granted m popped (object_slots m obj) v i.distinct

    visited-work :
        suc (unmarked_count visited.objects + length (stack visited.wl))
        ≡ unmarked_count c.objects + length (stack c.wl)
    unfolding popped
    visited-work = omega (arith, visited-Advanced.work, ap length top)

    newly_sound : (q : Ptr) → marked visited.objects q ≡ true → Reachable own root m q
    unfolding popped
    newly_sound q h = elim (Bool-cases (marked c.objects q)) [
      | inl old ↦ i.sound q old
      | inr new ↦
          from_slot (i.sound obj obj_marked) (ground (arith, visited-Advanced.marks q, h, new))
            (ground (arith, visited-Advanced.marks q, i.owned q, h, new))
    ]

    newly_closed :
        (p q : Ptr)
        → marked visited.objects p ≡ true
        → referred m (object_slots m p) q ≡ true
        → own q ≡ true
        → (elem p (stack visited.wl) ≡ true) ⊎ (marked visited.objects q ≡ true)
    unfolding popped
    newly_closed p q h r o = ground (
      arith,
      visited-Advanced.marks p,
      visited-Advanced.marks q,
      visited-Advanced.grey p,
      i.owned q,
      i.closed p q,
      grey_at p,
      same_slots,
    )
      where
        same_slots : obj ≡ p → referred m (object_slots m obj) q ≡ referred m (object_slots m p) q
        same_slots e = ap (λ x. referred m (object_slots m x) q) e

    visited-Inv : Inv visited
    unfolding popped
    visited-Inv =
        let a = visited-Advanced in
        record {
          owned = λ q. a.owned q ∙ i.owned q;
          valid = a.valid;
          distinct = a.distinct;
          sound = λ q h. newly_sound q h;
          roots = λ q r o. ground (arith, a.marks q, i.roots q r o);
          grey = λ q h. ground (arith, a.marks q, a.grey q, i.grey q, grey_at q);
          closed = λ p q h r o. newly_closed p q h r o;
        }

  -- The loop ends: each round takes an object off the stack, and one is put on only when it is marked.
  pub drain_ends :
      (fuel : ℕ) (c : MarkCtx)
      → Inv c
      → unmarked_count c.objects + length (stack c.wl) < fuel
      → (c' : MarkCtx) × (drain_worklist grants m fuel c ≡ some c') × Inv c' × (stack c'.wl ≡ [])
  unfolding visited
  drain_ends zero c i h = absurd (omega arith)
  drain_ends (suc fuel) c i h = elim (Bool-cases ((Worklist.pop c.wl).0 == null)) [
    | inl z ↦ (c, stop z, i, (pop_lem c.wl i.valid).1 ∙ rw z)
    | inr n ↦
        let (wl_valid, eq) = pop_lem c.wl i.valid in
        let obj = (Worklist.pop c.wl).0 in
        let wl = (Worklist.pop c.wl).1 in
        let top : stack c.wl ≡ obj ∷ stack wl = eq ∙ rw n in
        let (c', ends, inv, empty) =
          drain_ends fuel (visited c i wl obj wl_valid top) (visited-Inv c i wl obj wl_valid top)
            (omega (arith, visited-work c i wl obj wl_valid top)) in
        (c', go_on n ∙ ends, inv, empty)
  ]
    where
      stop : ((Worklist.pop c.wl).0 == null) ≡ true → drain_worklist grants m (suc fuel) c ≡ some c
      stop z = unfold drain_worklist in rw (z, pop-null c.wl i.valid z)

      go_on :
          ((Worklist.pop c.wl).0 == null) ≡ false
          → drain_worklist grants m (suc fuel) c
            ≡ drain_worklist grants m fuel (
                mark_slots grants m
                  (record c { wl = (Worklist.pop c.wl).1 })
                  (object_slots m (Worklist.pop c.wl).0))
      go_on n = unfold drain_worklist in rw n
