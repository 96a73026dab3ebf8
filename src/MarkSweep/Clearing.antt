-- ===== src/MarkSweep/Clearing.antt =====
-- Marking and sweeping together (src/algo/marksweep/ms.c): of the objects on a list of nodes exactly the
-- live ones stay.
use xgc.MarkSweep.{Node, MarkCtx, mark_phase, sweep, keep_worklist}
use xgc.MarkSweep.Nodes.{known, marked, marked-known, Distinct}
use xgc.MarkSweep.MarkPhase.{HasWorklist, Live, mark_phase_lem}
use xgc.MarkSweep.Sweeping.{Swept, dead, dead_bytes, sweep-Swept}
use xgc.MarkSweep.Held.{held_bytes, sweep-held_bytes, mark_phase-held_bytes}
use xgc.Object.{Header}
use xgc.Runtime.{Runtime}
use xgc.Runtime.Freeing.{KeepsRest, finalizes_at, times}
use xgc.Worklist.Stack.{IsValid}
use xgc.Prelude.{
  ℕ, ◌+◌, ◌-◌, ◌≡◌, ◌↔◌, ◌∙◌, sym, ap, Bool, true, false, not, ◌&&◌, none, some, List, arith, ◌==◌,
  if◌then◌else◌, Ptr, length, Option,
}

-- The runtime and the nodes after the sweep of what the mark phase left.
abbrev pub swept : {S : Type 0} → Runtime S → MarkCtx → Runtime S × List Node
swept rt c = sweep (keep_worklist rt c.wl) c.objects

-- The nodes `ns` are marked to those of `c` and swept.
pub record Cleared {S : Type 0} (rt : Runtime S) (ns : List Node) (c : MarkCtx) : Type 0 where
  pub rest : KeepsRest (keep_worklist rt c.wl) (swept rt c).0
  pub distinct : Distinct (swept rt c).1
  pub white : (q : Ptr) → marked (swept rt c).1 q ≡ false
  pub worklist : HasWorklist (swept rt c).0
  pub known_before : (q : Ptr) → known c.objects q ≡ known ns q
  pub kept : (q : Ptr) → (known (swept rt c).1 q ≡ true) ↔ ∥ Live rt ns q ∥₁
  pub dead_eq : (q : Ptr) → dead c.objects q ≡ (known ns q && not (known (swept rt c).1 q))
  pub subset : (q : Ptr) → known (swept rt c).1 q ≡ true → known ns q ≡ true
  pub headers :
      (q : Ptr)
      → (swept rt c).0.memory.header q
        ≡ (if known ns q && not (known (swept rt c).1 q) then none else rt.memory.header q)
  pub finalized :
      (q : Ptr)
      → times q (swept rt c).0.memory.finalized
        ≡ (if known ns q && not (known (swept rt c).1 q) && finalizes_at (rt.memory.header q)
            then 1
            else 0)
          + times q rt.memory.finalized
  pub total :
      (swept rt c).0.stats.total_allocated
      ≡ rt.stats.total_allocated - dead_bytes rt.memory.header c.objects
  -- Whatever each object counts.
  pub divided :
      (f : Ptr → Option Header)
      → held_bytes f ns ≡ dead_bytes f c.objects + held_bytes f (swept rt c).1

module _ (grants : ℕ → Bool) (granted : (n : ℕ) → grants n ≡ true) {S : Type 0} (rt : Runtime S)
    (ns : List Node) (w : HasWorklist rt) (d : Distinct ns)
    (white : (q : Ptr) → marked ns q ≡ false) where
  module _ (c : MarkCtx) (ends : mark_phase grants rt ns ≡ some c)
      (reached : (q : Ptr) → (marked c.objects q ≡ true) ↔ ∥ Live rt ns q ∥₁)
      (same : (q : Ptr) → known c.objects q ≡ known ns q) (distinct : Distinct c.objects)
      (valid : IsValid c.wl) where
    effect : Swept (keep_worklist rt c.wl) c.objects (swept rt c).0 (swept rt c).1
    effect = sweep-Swept (keep_worklist rt c.wl) c.objects distinct

    dead_lem : (q : Ptr) → dead c.objects q ≡ (known ns q && not (known (swept rt c).1 q))
    dead_lem q = ground (arith, same q, effect.owned q)

    swept-HasWorklist : HasWorklist (swept rt c).0
    swept-HasWorklist = record {
      size = ap length effect.rest.worklist_data ∙ valid.buffer ∙ sym effect.rest.worklist_capacity;
      pointer =
          effect.rest.worklist_allocated
          ∙ valid.pointer
          ∙ ap (λ n. not (n == 0)) (sym effect.rest.worklist_capacity);
    }

    swept-Cleared : Cleared rt ns c
    swept-Cleared = record {
      rest = effect.rest;
      distinct = effect.distinct;
      white = effect.white;
      worklist = swept-HasWorklist;
      known_before = same;
      kept = λ q.
          (λ h. (reached q).0 (sym (effect.owned q) ∙ h), λ l. effect.owned q ∙ (reached q).1 l);
      dead_eq = dead_lem;
      subset = λ q on. sym (same q) ∙ marked-known c.objects q (sym (effect.owned q) ∙ on);
      headers = λ q. ground (arith, effect.header q, dead_lem q);
      finalized = λ q. ground (arith, effect.finalized q, dead_lem q);
      total = effect.total;
      divided = λ f. omega (
        arith,
        sweep-held_bytes f (keep_worklist rt c.wl) c.objects,
        mark_phase-held_bytes f grants rt ns c ends,
      );
    }

  -- The mark phase ends, and the sweep after it keeps exactly the live objects.
  pub mark_sweep-Cleared :
      (c : MarkCtx) × (mark_phase grants rt ns ≡ some c) × Distinct c.objects × Cleared rt ns c
  mark_sweep-Cleared =
      let (c, ends, reached, same, distinct, valid) =
        mark_phase_lem grants granted rt ns w d white in
      (c, ends, distinct, swept-Cleared c ends reached same distinct valid)
