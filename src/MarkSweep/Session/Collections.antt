-- ===== src/MarkSweep/Session/Collections.antt =====
-- A full collection keeps a program's runtime sound (src/algo/marksweep/ms.c).
use xgc.Barrier
use xgc.Heap
use xgc.MarkSweep.{Node, MarkSweepState}
use xgc.MarkSweep.Collecting.{Collected}
use xgc.MarkSweep.Draining.{from_root, from_slot}
use xgc.MarkSweep.Held.{held_bytes}
use xgc.MarkSweep.MarkPhase.{Live}
use xgc.MarkSweep.Nodes.{known}
use xgc.MarkSweep.Session.{IsSound}
use xgc.Runtime.Program.{is_object}
use xgc.MarkSweep.Session.Objects.{held_bytes_ext}
use xgc.MarkSweep.Visits.{targeted}
use xgc.Runtime.{Runtime}
use xgc.Runtime.Freeing.{bytes_at}
use mathlib.Core.Logic.{∥∥₁_elim}
use mathlib.Core.Bool.{Bool-set}
use xgc.Prelude.{
  ◌≡◌, ◌∙◌, sym, ap, Bool, true, false, not, ◌&&◌, ◌||◌, none, List, arith, if◌then◌else◌, Ptr,
  null, Bool-cases, inl, inr,
}

Live-known :
    (rt : Runtime MarkSweepState) (ns : List Node) {q : Ptr} → Live rt ns q → known ns q ≡ true
Live-known rt ns (from_root r o) = o
Live-known rt ns (from_slot p r o) = o

module _ (rt : Runtime MarkSweepState) (state : MarkSweepState) (s : IsSound rt state)
    (rt' : Runtime MarkSweepState) (state' : MarkSweepState)
    (c : Collected rt state rt' state') where
  kept-known : (q : Ptr) → known state'.objects q ≡ true → known state.objects q ≡ true
  kept-known q k = ∥∥₁_elim ((c.kept q).0 k) (Bool-set _ _) (λ l. Live-known rt state.objects l)

  same_header : (q : Ptr) → known state'.objects q ≡ true → rt'.memory.header q ≡ rt.memory.header q
  same_header q k = c.headers q ∙ kept (known state.objects q) (known state'.objects q) k
    where
      kept :
          (x y : Bool)
          → y ≡ true
          → (if x && not y then none else rt.memory.header q) ≡ rt.memory.header q
      kept x y h = ground arith

  -- A handle's object survives.
  pub target_header :
      (q : Ptr) → targeted rt.handles q ≡ true → rt'.memory.header q ≡ rt.memory.header q
  target_header q t = elim (Bool-cases (known state.objects q)) [
    | inl k ↦ same_header q ((c.kept q).1 ∣ from_root (rooted _ _ t) k ∣₁)
    | inr k ↦ c.headers q ∙ unknown (known state.objects q) (known state'.objects q) k
  ]
    where
      rooted : (x y : Bool) → x ≡ true → (x || y) ≡ true
      rooted x y h = ground arith

      unknown :
          (x y : Bool)
          → x ≡ false
          → (if x && not y then none else rt.memory.header q) ≡ rt.memory.header q
      unknown x y h = ground arith

  same_held :
      held_bytes rt'.memory.header state'.objects ≡ held_bytes rt.memory.header state'.objects
  same_held =
      held_bytes_ext rt'.memory.header rt.memory.header state'.objects
        (λ q k. ap bytes_at (same_header q k))

  pub collected-IsSound : IsSound rt' state'
  collected-IsSound =
      let (freed, split, total) = c.total in
      record {
        ready = c.ready;
        headers = λ q k. ap is_object (same_header q k) ∙ s.headers q (kept-known q k);
        targets = λ q t.
            let t' = sym (ap (λ hs. targeted hs q) c.handles) ∙ t in
            ap is_object (target_header q t') ∙ s.targets q t';
        named = ap (λ hs. targeted hs null) c.handles ∙ s.named;
        total = omega (arith, total, split, s.total, same_held);
        peak = omega (arith, total, s.peak, c.peak);
        barriers = ap Barrier.set_check_invariants c.barriers ∙ s.barriers;
        heap = ap Heap.check_invariants c.heap ∙ s.heap;
        gc_state = c.gc_state ∙ s.gc_state;
      }
