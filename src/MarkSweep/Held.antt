-- ===== src/MarkSweep/Held.antt =====
-- The bytes of the collector's objects, which marking does not change and the sweep divides into those
-- freed and those kept (src/algo/marksweep/ms.c).
use xgc.MarkSweep.{
  Node, MarkCtx, set_marked, push_object, mark_object, mark_slot, mark_slots, mark_handle_roots,
  drain_worklist, sweep, mark_phase, start_ctx, root_slots,
}
use xgc.MarkSweep.Sweeping.{dead_bytes}
use xgc.Object.{Memory, Header, object_slots}
use xgc.Runtime.{Runtime, Handle}
use xgc.Runtime.Freeing.{bytes_at}
use xgc.Runtime.Reclaim.{reclaim_object}
use xgc.Worklist
use xgc.Prelude.{
  ℕ, zero, suc, ◌+◌, ◌≡◌, refl, ◌∙◌, Bool, Option, some, List, [], ◌∷◌, arith, Ptr, length,
  Bool-cases, inl, inr,
}

module _ (f : Ptr → Option Header) where
  unfoldable pub held_bytes : List Node → ℕ
  held_bytes [] = 0
  held_bytes (n ∷ ns) = bytes_at (f n.obj) + held_bytes ns

  pub sweep-held_bytes :
      {S : Type 0} (rt : Runtime S) (ns : List Node)
      → held_bytes ns ≡ dead_bytes f ns + held_bytes (sweep rt ns).1
  unfolding held_bytes dead_bytes sweep
  sweep-held_bytes rt [] = refl
  sweep-held_bytes rt (n ∷ ns) = elim (Bool-cases n.marked) [
    | inl m ↦ rw (m, sweep) (omega (arith, sweep-held_bytes rt ns))
    | inr m ↦ rw (m, sweep) (omega (arith, sweep-held_bytes (reclaim_object rt n.obj) ns))
  ]

  set_marked-held_bytes : (ns : List Node) (p : Ptr) → held_bytes (set_marked ns p) ≡ held_bytes ns
  unfolding held_bytes set_marked
  set_marked-held_bytes [] p = refl
  set_marked-held_bytes (n ∷ ns) p = ground (arith, set_marked-held_bytes ns p)

  module _ (grants : ℕ → Bool) where
    mark_object-held_bytes :
        (c : MarkCtx) (p : Ptr) → held_bytes (mark_object grants c p).objects ≡ held_bytes c.objects
    unfolding mark_object push_object
    mark_object-held_bytes c p = ground (arith, set_marked-held_bytes c.objects p)

    mark_slots-held_bytes :
        (m : Memory) (c : MarkCtx) (slots : List Ptr)
        → held_bytes (mark_slots grants m c slots).objects ≡ held_bytes c.objects
    unfolding mark_slots
    mark_slots-held_bytes m c [] = refl
    mark_slots-held_bytes m c (s ∷ slots) =
        mark_slots-held_bytes m (mark_slot grants m c s) slots ∙ one
      where
        one : held_bytes (mark_slot grants m c s).objects ≡ held_bytes c.objects
        one = unfold mark_slot in ground (arith, mark_object-held_bytes c (m.slot s))

    mark_handle_roots-held_bytes :
        (c : MarkCtx) (hs : List Handle)
        → held_bytes (mark_handle_roots grants c hs).objects ≡ held_bytes c.objects
    unfolding mark_handle_roots
    mark_handle_roots-held_bytes c [] = refl
    mark_handle_roots-held_bytes c (h ∷ hs) =
        mark_handle_roots-held_bytes (mark_object grants c h.target) hs
        ∙ mark_object-held_bytes c h.target

    drain-held_bytes :
        (m : Memory) (fuel : ℕ) (c c' : MarkCtx)
        → drain_worklist grants m fuel c ≡ some c'
        → held_bytes c'.objects ≡ held_bytes c.objects
    unfolding drain_worklist
    drain-held_bytes m zero c c' e = cc
    drain-held_bytes m (suc fuel) c c' e =
        let popped : MarkCtx = record c { wl = (Worklist.pop c.wl).1 } in
        let slots = object_slots m (Worklist.pop c.wl).0 in
        ground (
          arith,
          e,
          drain-held_bytes m fuel (mark_slots grants m popped slots) c',
          mark_slots-held_bytes m popped slots,
        )

    pub mark_phase-held_bytes :
        {S : Type 0} (rt : Runtime S) (ns : List Node) (c : MarkCtx)
        → mark_phase grants rt ns ≡ some c
        → held_bytes c.objects ≡ held_bytes ns
    unfolding mark_phase
    mark_phase-held_bytes rt ns c e =
        let handles = mark_handle_roots grants (start_ctx rt ns) rt.handles in
        drain-held_bytes rt.memory (suc (length ns)) _ c e
        ∙ mark_slots-held_bytes rt.memory handles (root_slots rt)
        ∙ mark_handle_roots-held_bytes (start_ctx rt ns) rt.handles
