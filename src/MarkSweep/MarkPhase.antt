-- ===== src/MarkSweep/MarkPhase.antt =====
-- The mark phase of src/algo/marksweep/ms.c from the roots on: it ends, and the marked objects are
-- the reachable ones.
use xgc.MarkSweep.{Node, MarkCtx, mark_slots, mark_handle_roots, mark_phase, start_ctx, root_slots}
use xgc.MarkSweep.Nodes.{known, marked, unmarked_count-le, Distinct}
use xgc.MarkSweep.Visits.{
  Advanced, elem, referred, targeted, then_advance, mark_slots-Advanced, mark_handle_roots-Advanced,
}
use xgc.MarkSweep.Draining.{Reachable, from_root, from_slot, Inv, drain_ends}
use xgc.Runtime.{Runtime}
use xgc.Worklist.Stack.{IsValid, stack, stack_of}
use mathlib.Core.Logic.{∥∥₁_elim}
use mathlib.Core.Bool.{Bool-set}
use xgc.Prelude.{
  ℕ, suc, ◌≡◌, ◌↔◌, refl, ap, Bool, true, false, not, ◌||◌, some, List, [], arith, ◌==◌, Ptr,
  length, inl, inr,
}

-- The runtime's stack memory is as its capacity says.
pub record HasWorklist {S : Type 0} (rt : Runtime S) : Type 0 where
  pub size : length rt.worklist_data ≡ rt.worklist_capacity
  pub pointer : rt.worklist_allocated ≡ not (rt.worklist_capacity == 0)

-- The objects that a handle or a root slot refers to.
abbrev pub root_of : {S : Type 0} → Runtime S → Ptr → Bool
root_of rt q = targeted rt.handles q || referred rt.memory (root_slots rt) q

-- What the VM can still use.
abbrev pub Live : {S : Type 0} → Runtime S → List Node → Ptr → Type 0
Live rt objects = Reachable (known objects) (root_of rt) rt.memory

module _ (grants : ℕ → Bool) (granted : (n : ℕ) → grants n ≡ true) {S : Type 0} (rt : Runtime S)
    (objects : List Node) (w : HasWorklist rt) (d : Distinct objects)
    (white : (q : Ptr) → marked objects q ≡ false) where
  start-IsValid : IsValid (start_ctx rt objects).wl
  start-IsValid = record {
    room = omega arith;
    buffer = w.size;
    pointer = w.pointer;
    filled = λ i h. absurd (omega arith);
  }

  abbrev rooted : MarkCtx
  rooted =
      mark_slots grants rt.memory (mark_handle_roots grants (start_ctx rt objects) rt.handles)
        (root_slots rt)

  rooted-Advanced : Advanced (root_of rt) (start_ctx rt objects) rooted
  rooted-Advanced =
      let first =
        mark_handle_roots-Advanced grants granted (start_ctx rt objects) rt.handles start-IsValid
          d in
      let second =
        mark_slots-Advanced grants granted rt.memory
          (mark_handle_roots grants (start_ctx rt objects) rt.handles) (root_slots rt) first.valid
          first.distinct in
      then_advance (targeted rt.handles) (referred rt.memory (root_slots rt)) (start_ctx rt objects)
        (mark_handle_roots grants (start_ctx rt objects) rt.handles) rooted first second

  empty_start : (q : Ptr) → elem q (stack (start_ctx rt objects).wl) ≡ false
  unfolding stack_of
  empty_start q = refl

  empty_length : length (stack (start_ctx rt objects).wl) ≡ 0
  unfolding stack_of
  empty_length = refl

  rooted-Inv : Inv grants granted rt.memory (known objects) (root_of rt) rooted
  rooted-Inv =
      let a = rooted-Advanced in
      record {
        owned = a.owned;
        valid = a.valid;
        distinct = a.distinct;
        sound = λ q h.
            from_root (ground (arith, a.marks q, white q)) (ground (arith, a.marks q, white q));
        roots = λ q r o. ground (arith, a.marks q);
        grey = λ q h. ground (arith, a.marks q, a.grey q, empty_start q);
        closed = λ p q h r o. inl (ground (arith, a.marks p, a.grey p, white p));
      }

  complete :
      (c : MarkCtx)
      → Inv grants granted rt.memory (known objects) (root_of rt) c
      → stack c.wl ≡ []
      → {q : Ptr} → Live rt objects q
      → marked c.objects q ≡ true
  complete c i e (from_root {q} r o) = i.roots q r o
  complete c i e (from_slot {p} {q} reach r o) = elim (i.closed p q (complete c i e reach) r o) [
    | inl waiting ↦ cc (waiting, ap (elem p) e)
    | inr m ↦ m
  ]

  -- From distinct unmarked nodes and with stack memory as its capacity says, if every request for
  -- a larger stack is granted, the mark phase ends; it marks an object exactly if it is live, owns
  -- the same objects as before, and keeps the nodes distinct and the stack valid.
  pub mark_phase_lem :
      (c : MarkCtx) × (mark_phase grants rt objects ≡ some c)
      × ((q : Ptr) → (marked c.objects q ≡ true) ↔ ∥ Live rt objects q ∥₁)
      × ((q : Ptr) → known c.objects q ≡ known objects q)
      × Distinct c.objects
      × IsValid c.wl
  unfolding mark_phase
  mark_phase_lem =
      let (c, ends, inv, empty) =
        drain_ends grants granted rt.memory (known objects) (root_of rt) (suc (length objects))
          rooted rooted-Inv
          (omega (arith, rooted-Advanced.work, empty_length, unmarked_count-le objects)) in
      (
        c,
        ends,
        λ q. (λ h. ∣ inv.sound q h ∣₁, λ l. ∥∥₁_elim l (Bool-set _ _) (complete c inv empty)),
        inv.owned,
        inv.distinct,
        inv.valid,
      )
