-- ===== src/BaconRajan/Session/Calls.antt =====
-- Each call of a program keeps every object and the soundness of the runtime (src/core/runtime.c
-- with src/algo/bacon-rajan).
use xgc.BaconRajan.{vtable, pin, unpin}
use xgc.BaconRajan.Session.{Answers, IsSound, Kept, Grows}
use xgc.BaconRajan.Session.Growing.{
  Kept-refl, Kept-flags, Grows-refl, Grows-trans, with_memory-IsSound,
}
use xgc.MarkSweep.Session.HandleCalls.{unlink-targeted}
use xgc.MarkSweep.Visits.{targeted}
use xgc.Object.{Memory, Header, set_slot, set_header}
use xgc.Runtime.{Runtime, Vtable, Handle, Stats}
use xgc.Runtime.Flags.{update_header, with_pin, without_pin}
use xgc.Runtime.Handles.{handle_acquire, handle_release, unlink, linked}
use xgc.Runtime.Program.{is_object}
use xgc.Runtime.References.{store_ref}
use xgc.Prelude.{
  ℕ, ◌≡◌, ◌⊎◌, inl, inr, refl, ap, true, false, Option, none, some, List, ◌∷◌, Ptr, null, arith,
  ◌==◌, Bool-cases,
}

-- After a call: nothing is lost, and the runtime is sound.
abbrev pub Good : {S : Type 0} → Runtime S → Runtime S → Type 0
Good rt rt' = Grows rt rt' × IsSound rt'

abbrev pub table : {S : Type 0} → Answers → Vtable S
table a = vtable a.worklist_granted a.object

update_header-finalized :
    (m : Memory) (obj : Ptr) (f : Header → Header) → (update_header m obj f).finalized ≡ m.finalized
unfolding update_header set_header
update_header-finalized m obj f = ground arith

module _ {S : Type 0} (rt : Runtime S) (s : IsSound rt) where
  pub unchanged : Good rt rt
  unchanged = (Grows-refl rt, s)

  memory-Good :
      (m : Memory)
      → ((q : Ptr) → Kept (rt.memory.header q) (m.header q))
      → m.finalized ≡ rt.memory.finalized
      → Good rt (record rt { memory = m })
  memory-Good m k f =
      (record { headers = k; finalized = f; total = omega arith }, with_memory-IsSound rt m s k)

  pub store-Good :
      (a : Answers) (owner slot new_value : Ptr)
      → Good rt (store_ref (table a) rt owner slot new_value)
  unfolding store_ref set_slot
  store-Good a owner slot new_value = elim (Bool-cases (slot == null)) [
    | inl h ↦ rw (h, store_ref) unchanged
    | inr h ↦ rw (h, store_ref) (memory-Good _ (λ q. Kept-refl (rt.memory.header q)) refl)
  ]

  update-Good :
      (obj : Ptr) (f : Header → Header)
      → ((h : Header) → ((f h).desc ≡ h.desc) × ((f h).size ≡ h.size) × ((f h).kind ≡ h.kind))
      → Good rt (record rt { memory = update_header rt.memory obj f })
  update-Good obj f k =
      memory-Good _ (Kept-flags rt.memory obj f k) (update_header-finalized rt.memory obj f)

  pub pin-Good : (obj : Ptr) → Good rt (pin rt obj)
  unfolding pin
  pin-Good obj = elim (Bool-cases (obj == null)) [
    | inl h ↦ rw (h, pin) unchanged
    | inr h ↦ rw (h, pin) (update-Good obj with_pin (λ h. (refl, refl, refl)))
  ]

  pub unpin-Good : (obj : Ptr) → Good rt (unpin rt obj)
  unfolding unpin
  unpin-Good obj = elim (Bool-cases (obj == null)) [
    | inl h ↦ rw (h, unpin) unchanged
    | inr h ↦ rw (h, unpin) (update-Good obj without_pin (λ h. (refl, refl, refl)))
  ]

  with_handles-Good :
      (hs : List Handle)
      → ((q : Ptr) → targeted hs q ≡ true → is_object (rt.memory.header q) ≡ true)
      → targeted hs null ≡ false
      → Good rt (record rt { handles = hs })
  with_handles-Good hs t n = (
    record { headers = λ q. Kept-refl (rt.memory.header q); finalized = refl; total = omega arith },
    record {
      targets = t;
      named = n;
      worklist = s.worklist;
      peak = s.peak;
      barriers = s.barriers;
      heap = s.heap;
      gc_state = s.gc_state;
    },
  )

  -- Other counters, with the same bytes.
  pub with_stats-Good :
      (stats : Stats)
      → stats.total_allocated ≡ rt.stats.total_allocated
      → stats.peak_allocated ≡ rt.stats.peak_allocated
      → Good rt (record rt { stats = stats })
  with_stats-Good stats t p = (
    record {
      headers = λ q. Kept-refl (rt.memory.header q);
      finalized = refl;
      total = omega (arith, t);
    },
    record {
      targets = s.targets;
      named = s.named;
      worklist = s.worklist;
      peak = omega (arith, t, p, s.peak);
      barriers = s.barriers;
      heap = s.heap;
      gc_state = s.gc_state;
    },
  )

-- One step after another.
Good-after :
    {S : Type 0} (a b : Runtime S) {c : Runtime S} → Good a b → (IsSound b → Good b c) → Good a c
Good-after a b {c} g k = let r = k g.1 in (Grows-trans a b c g.0 r.0, r.1)

module _ {S : Type 0} (rt : Runtime S) (s : IsSound rt) where
  pub acquire-Good :
      (a : Answers) (node obj : Ptr) (flags : ℕ)
      → (obj ≡ null) ⊎ (is_object (rt.memory.header obj) ≡ true)
      → Good rt (handle_acquire (table a) node rt obj flags).1
  unfolding handle_acquire
  acquire-Good a node obj flags valid = elim (Bool-cases (obj == null)) [
    | inl h ↦ rw (h, handle_acquire) (unchanged rt s)
    | inr h ↦ elim (Bool-cases (node == null)) [
      | inl k ↦ rw (h, k, handle_acquire) (unchanged rt s)
      | inr k ↦
          rw (h, k, handle_acquire)
            (Good-after rt (linked rt handle)
              (with_handles-Good rt s (handle ∷ rt.handles)
                (λ q t. ground (arith, valid, s.targets q, same q)) (ground (arith, s.named)))
              (λ s'. pin-Good (linked rt handle) s' obj))
    ]
  ]
    where
      handle : Handle
      handle = record { self = node; target = obj; flags = flags }

      same : (q : Ptr) → obj ≡ q → is_object (rt.memory.header obj) ≡ is_object (rt.memory.header q)
      same q e = ap (λ p. is_object (rt.memory.header p)) e

  pub release-Good :
      (a : Answers) (handle : Option Handle) → Good rt (handle_release (table a) rt handle)
  unfolding handle_release
  release-Good a none = unchanged rt s
  release-Good a (some h) =
      let hs = unlink rt.handles h.self in
      let g =
        with_handles-Good rt s hs (λ q t. s.targets q (unlink-targeted rt.handles h.self q t))
          (ground (arith, unlink-targeted rt.handles h.self null, s.named)) in
      elim (Bool-cases (h.target == null)) [
        | inl z ↦ rw (z, handle_release) g
        | inr z ↦
            rw (z, handle_release)
              (Good-after rt (record rt { handles = hs }) g
                (λ s'. unpin-Good (record rt { handles = hs }) s' h.target))
      ]
