-- ===== src/MarkSweep/Session/HandleCalls.antt =====
-- Acquiring and releasing a handle keeps a program's runtime sound (src/core/runtime.c with
-- src/algo/marksweep/ms.c).
use xgc.MarkSweep.{MarkSweepState}
use xgc.MarkSweep.Algorithm.{Answers, vtable}
use xgc.MarkSweep.Session.{IsSound}
use xgc.Runtime.Program.{is_object}
use xgc.MarkSweep.Session.Calls.{Sound, pin-Sound, unpin-Sound}
use xgc.MarkSweep.Visits.{targeted}
use xgc.Runtime.{Runtime, Handle}
use xgc.Runtime.Handles.{handle_acquire, handle_release, unlink, linked}
use xgc.Prelude.{
  ℕ, ◌≡◌, ◌⊎◌, inl, inr, ap, true, false, Option, none, some, List, [], ◌∷◌, Ptr, null, arith, ◌==◌,
  Bool-cases,
}

pub unlink-targeted :
    (hs : List Handle) (p q : Ptr) → targeted (unlink hs p) q ≡ true → targeted hs q ≡ true
unfolding unlink
unlink-targeted [] p q h = h
unlink-targeted (x ∷ hs) p q h = ground (arith, unlink-targeted hs p q)

module _ (rt : Runtime MarkSweepState) (state : MarkSweepState) (s : IsSound rt state) where
  -- Other handles, whose objects are there.
  with_handles-IsSound :
      (hs : List Handle)
      → ((q : Ptr) → targeted hs q ≡ true → is_object (rt.memory.header q) ≡ true)
      → targeted hs null ≡ false
      → IsSound (record rt { handles = hs }) state
  with_handles-IsSound hs t n = record {
    ready = record {
      attached = s.ready.attached;
      distinct = s.ready.distinct;
      white = s.ready.white;
      worklist = record { size = s.ready.worklist.size; pointer = s.ready.worklist.pointer };
    };
    headers = s.headers;
    targets = t;
    named = n;
    total = s.total;
    peak = s.peak;
    barriers = s.barriers;
    heap = s.heap;
    gc_state = s.gc_state;
  }

  pub acquire-Sound :
      (a : Answers) (node obj : Ptr) (flags : ℕ)
      → (obj ≡ null) ⊎ (is_object (rt.memory.header obj) ≡ true)
      → Sound (handle_acquire (vtable a) node rt obj flags).1
  unfolding handle_acquire
  acquire-Sound a node obj flags valid = elim (Bool-cases (obj == null)) [
    | inl h ↦ rw (h, handle_acquire) (state, s)
    | inr h ↦ elim (Bool-cases (node == null)) [
      | inl k ↦ rw (h, k, handle_acquire) (state, s)
      | inr k ↦
          rw (h, k, handle_acquire)
            (pin-Sound (linked rt handle) state
              (with_handles-IsSound (handle ∷ rt.handles)
                (λ q t. ground (arith, valid, s.targets q, same q)) (ground (arith, s.named)))
              obj)
    ]
  ]
    where
      handle : Handle
      handle = record { self = node; target = obj; flags = flags }

      same : (q : Ptr) → obj ≡ q → is_object (rt.memory.header obj) ≡ is_object (rt.memory.header q)
      same q e = ap (λ p. is_object (rt.memory.header p)) e

  pub release-Sound :
      (a : Answers) (handle : Option Handle) → Sound (handle_release (vtable a) rt handle)
  unfolding handle_release
  release-Sound a none = (state, s)
  release-Sound a (some h) =
      let s' =
        with_handles-IsSound (unlink rt.handles h.self)
          (λ q t. s.targets q (unlink-targeted rt.handles h.self q t))
          (ground (arith, unlink-targeted rt.handles h.self null, s.named)) in
      elim (Bool-cases (h.target == null)) [
        | inl z ↦ rw (z, handle_release) (state, s')
        | inr z ↦
            rw (z, handle_release)
              (unpin-Sound (record rt { handles = unlink rt.handles h.self }) state s' h.target)
      ]
