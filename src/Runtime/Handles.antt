-- ===== src/Runtime/Handles.antt =====
-- Handles (src/core/runtime.c) and the checkers of handles and of the runtime
-- (src/core/invariants.c). The runtime is passed by value: there is no guard `rt == NULL`.
use xgc.Barrier.{set_check_invariants, differ}
use xgc.Heap
use xgc.Object.{Memory}
use xgc.Runtime.{
  Runtime, Vtable, Handle, gc_state_running, gc_state_stw_requested, gc_state_stw_in_progress,
}
use xgc.Prelude.{
  ℕ, Bool, true, false, not, ◌&&◌, Option, none, some, List, [], ◌∷◌, ltb, ◌==◌, if◌then◌else◌, Ptr,
  null, is_none,
}

abbrev pub handle_get : Option Handle → Ptr
handle_get none = null
handle_get (some handle) = handle.target

-- The node leaves the list, if it is there.
unfoldable pub unlink : List Handle → Ptr → List Handle
unlink [] handle = []
unlink (h ∷ hs) handle = if h.self == handle then hs else h ∷ unlink hs handle

-- A handle of the list belongs to the runtime that holds it. A target where no object starts is
-- read after `free`; it is refused here.
unfoldable pub handle_check_invariants : Memory → Handle → Bool
handle_check_invariants m handle =
    if handle.target == null then false else elim (m.header handle.target) [
      | none ↦ false
      | some h ↦ if is_none h.desc then false else not (h.size == 0)
    ]

unfoldable pub check_handles : Memory → List Handle → Bool
check_handles m [] = true
check_handles m (h ∷ hs) = handle_check_invariants m h && check_handles m hs

module _ {S : Type 0} where
  abbrev pub pin_with : Option (Runtime S → Ptr → Runtime S) → Runtime S → Ptr → Runtime S
  pin_with none rt obj = rt
  pin_with (some pin) rt obj = pin rt obj

  abbrev pub linked : Runtime S → Handle → Runtime S
  linked rt handle = record rt { handles = handle ∷ rt.handles }

  -- `node` is what `calloc` answers for the handle.
  unfoldable pub handle_acquire : Vtable S → Ptr → Runtime S → Ptr → ℕ → Option Handle × Runtime S
  handle_acquire algo node rt obj flags =
      let handle : Handle = record { self = node; target = obj; flags = flags } in
      if obj == null
      then (none, rt)
      else if node == null
      then (none, rt)
      else (some handle, pin_with algo.pin (linked rt handle) obj)

  unfoldable pub handle_release : Vtable S → Runtime S → Option Handle → Runtime S
  unfolding unlink
  handle_release algo rt none = rt
  handle_release algo rt (some handle) =
      let rt' = record rt { handles = unlink rt.handles handle.self } in
      if handle.target == null then rt' else pin_with algo.unpin rt' handle.target

  unfoldable pub runtime_check_invariants : Vtable S → Runtime S → Bool
  unfolding check_handles
  runtime_check_invariants algo rt =
      if not algo.has_name
      then false
      else if not (rt.gc_state == gc_state_running)
          && (not (rt.gc_state == gc_state_stw_requested)
              && not (rt.gc_state == gc_state_stw_in_progress))
      then false
      else if not (Heap.check_invariants rt.heap)
      then false
      else if not (set_check_invariants rt.barriers)
      then false
      else if differ (rt.worklist_capacity == 0) (not rt.worklist_allocated)
      then false
      else if ltb rt.stats.peak_allocated rt.stats.total_allocated
      then false
      else check_handles rt.memory rt.handles
