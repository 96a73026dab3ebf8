-- ===== src/MarkSweep/Session/Surviving.antt =====
-- What a program's handles keep alive, and what releasing one does to the pin flag of its object
-- (src/core/runtime.c with src/algo/marksweep/ms.c).
use xgc.MarkSweep.{MarkSweepState, collect_full_impl}
use xgc.MarkSweep.Algorithm.{Answers, vtable, pin, unpin}
use xgc.MarkSweep.Collecting.{collect_full_lem}
use xgc.MarkSweep.Session.{Session, full, called}
use xgc.MarkSweep.Session.Collections.{target_header}
use xgc.MarkSweep.Session.Sound.{Session-Sound}
use xgc.MarkSweep.Visits.{targeted}
use xgc.Object.{Memory, Header, set_header, object_flag_pinned}
use xgc.Runtime.{Runtime, Handle}
use xgc.Runtime.Collection.{collect_full, count_full}
use xgc.Runtime.Flags.{has_flag, update_header, with_pin, without_pin}
use xgc.Runtime.PinFlag.{pinned-with_pin, pinned-without_pin}
use xgc.Runtime.Handles.{handle_acquire, handle_release, unlink}
use mathlib.Core.Option
use xgc.Prelude.{
  ℕ, ◌≡◌, ◌≢◌, refl, true, false, Option, none, some, ◌∷◌, Ptr, null, arith, ◌==◌, if◌then◌else◌,
  Ends, ap, ◌∙◌,
}

Ends-map :
    {A : Type 0} (P Q : A → Type 0) (f : A → A) (r : Option A)
    → Ends P r
    → ((x : A) → r ≡ some x → P x → Q (f x))
    → Ends Q (Option.map f r)
Ends-map P Q f none h k = h
Ends-map P Q f (some x) h k = k x refl h

-- In the runtime of a program (a `Session`), if every request for a larger work stack is granted,
-- a full collection ends, the program can go on with the result, and the header of an object that
-- a handle refers to is there unchanged.
pub Session-target :
    (a : Answers) (rt : Runtime MarkSweepState) (q : Ptr)
    → Session rt
    → ((n : ℕ) → a.grants n ≡ true)
    → targeted rt.handles q ≡ true
    → Ends
        (λ rt'. Session rt' × (rt'.memory.header q ≡ rt.memory.header q))
        (collect_full (vtable a) rt)
unfolding collect_full
Session-target a rt q session granted t =
    let (state, s) = Session-Sound session in
    Ends-map _ _ count_full (collect_full_impl a.grants rt)
      (collect_full_lem a.grants granted rt state s.ready)
      λ r e (state', c). (
        called session (full a (count_full r) granted (ap (Option.map count_full) e)),
        target_header rt state s r state' c q t,
      )

update_at :
    (m : Memory) (obj : Ptr) (h : Header) (f : Header → Header)
    → m.header obj ≡ some h
    → (update_header m obj f).header obj ≡ some (f h)
unfolding update_header set_header
update_at m obj h f e = rw (e, update_header) (self obj)
  where
    self : (p : Ptr) → (if p == p then some (f h) else m.header p) ≡ some (f h)
    self p = ground arith

abbrev acquired : Answers → Runtime MarkSweepState → Ptr → Ptr → ℕ → Runtime MarkSweepState
acquired a rt node obj flags = record rt {
  handles = record { self = node; target = obj; flags = flags } ∷ rt.handles;
  memory = update_header rt.memory obj with_pin;
}

module _ (a : Answers) (rt : Runtime MarkSweepState) where
  acquire_eq :
      (node obj : Ptr) (flags : ℕ)
      → obj ≢ null
      → node ≢ null
      → (handle_acquire (vtable a) node rt obj flags).1 ≡ acquired a rt node obj flags
  unfolding handle_acquire pin
  acquire_eq node obj flags ne n = ground arith

  release_eq :
      (h : Handle)
      → h.target ≢ null
      → handle_release (vtable a) rt (some h) ≡ record rt {
        handles = unlink rt.handles h.self;
        memory = update_header rt.memory h.target without_pin;
      }
  unfolding handle_release unpin
  release_eq h ne = ground arith

module _ (a : Answers) (rt : Runtime MarkSweepState) (node1 node2 obj : Ptr) (flags : ℕ) where
  -- Two handles of one object, the first of them released.
  abbrev pub first_handle : Handle
  first_handle = record { self = node1; target = obj; flags = flags }

  abbrev pub both_held : Runtime MarkSweepState
  both_held =
      (handle_acquire (vtable a) node2 (handle_acquire (vtable a) node1 rt obj flags).1 obj flags).1

  abbrev pub one_released : Runtime MarkSweepState
  one_released = handle_release (vtable a) both_held (some first_handle)

  -- If an object with a header is acquired twice, by two different nodes other than NULL, its pin
  -- flag is set; if then the first handle is released, the second one stays in the list in front of
  -- the earlier ones, but the pin flag of the object is cleared. Its type, size and kind are as they
  -- were.
  pub release-acquire :
      (h : Header)
      → obj ≢ null
      → node1 ≢ null
      → node2 ≢ null
      → node1 ≢ node2
      → rt.memory.header obj ≡ some h
      → (held : Header) × (both_held.memory.header obj ≡ some held)
        × (has_flag held.flags object_flag_pinned ≡ true)
        × (one_released.handles ≡ record { self = node2; target = obj; flags = flags } ∷ rt.handles)
        × (left : Header) × (one_released.memory.header obj ≡ some left)
        × (has_flag left.flags object_flag_pinned ≡ false)
        × (left.desc ≡ h.desc)
        × (left.size ≡ h.size)
        × (left.kind ≡ h.kind)
  unfolding unlink
  release-acquire h ne n1 n2 n3 found =
      let once = acquired a rt node1 obj flags in
      let twice = acquired a once node2 obj flags in
      let at_twice =
        update_at once.memory obj (with_pin h) with_pin
          (update_at rt.memory obj h with_pin found) in
      let held : both_held ≡ twice =
        ap (λ r. (handle_acquire (vtable a) node2 r obj flags).1)
          (acquire_eq a rt node1 obj flags ne n1)
        ∙ acquire_eq a once node2 obj flags ne n2 in
      let left =
        ap (λ r. handle_release (vtable a) r (some first_handle)) held
        ∙ release_eq a twice first_handle ne in
      (
        with_pin (with_pin h),
        ap (λ r. r.memory.header obj) held ∙ at_twice,
        pinned-with_pin (with_pin h),
        ap (λ r. r.handles) left ∙ ground arith,
        without_pin (with_pin (with_pin h)),
        ap (λ r. r.memory.header obj) left
            ∙ update_at twice.memory obj (with_pin (with_pin h)) without_pin at_twice,
        pinned-without_pin (with_pin (with_pin h)),
        refl,
        refl,
        refl,
      )
