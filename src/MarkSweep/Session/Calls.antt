-- ===== src/MarkSweep/Session/Calls.antt =====
-- Each call of a program keeps its runtime sound (src/core/runtime.c with
-- src/algo/marksweep/ms.c).
use xgc.MarkSweep.{MarkSweepState}
use xgc.MarkSweep.Algorithm.{Answers, vtable, pin, unpin}
use xgc.MarkSweep.Session.{IsSound}
use xgc.Runtime.Program.{is_object}
use xgc.MarkSweep.Session.Allocating.{
  typed_header, raw_header, typed_header_lem, raw_header_lem, typed_memory, raw_memory,
  typed_memory-header, raw_memory-header, with_raw, alloc_typed-some, alloc_typed_raw,
  alloc_typed_refused,
}
use xgc.MarkSweep.Session.Objects.{with_memory-IsSound, fresh-IsSound, grown-IsSound}
use xgc.Object.{Memory, Header, Descriptor, header_size, set_header, set_slot}
use xgc.Runtime.{Runtime}
use xgc.Runtime.Allocation.{alloc_typed}
use xgc.Runtime.Flags.{update_header, with_pin, without_pin}
use xgc.Runtime.Freeing.{bytes_at}
use xgc.Runtime.References.{store_ref}
use xgc.Prelude.{
  ℕ, ◌+◌, ◌^◌, ◌≤◌, ◌<◌, ◌≡◌, ◌⊎◌, inl, inr, refl, sym, ◌∙◌, ap, subst, true, false, not, ◌&&◌,
  Option, none, some, Ptr, null, is_none, arith, ltb, ◌==◌, if◌then◌else◌, size_mod, Bool-cases,
  Option-cases, Ends,
}

-- Some state makes the runtime sound.
abbrev pub Sound : Runtime MarkSweepState → Type 0
Sound rt = (state : MarkSweepState) × IsSound rt state

update_header_lem :
    (m : Memory) (obj : Ptr) (f : Header → Header)
    → ((h : Header) → is_none (f h).desc ≡ is_none h.desc)
    → ((h : Header) → (f h).size ≡ h.size)
    → (q : Ptr)
    → (is_object ((update_header m obj f).header q) ≡ is_object (m.header q))
      × (bytes_at ((update_header m obj f).header q) ≡ bytes_at (m.header q))
unfolding update_header set_header
update_header_lem m obj f d z q = elim (Option-cases (m.header obj)) [
  | inl e ↦ rw (e, update_header) (refl, refl)
  | inr (h, e) ↦
      rw (e, update_header)
        (
          ground (arith, d h, z h, at q (λ o. is_object o) e),
          ground (arith, z h, at q (λ o. bytes_at o) e),
        )
]
  where
    at :
        {A : Type 0} {h : Header} (q : Ptr) (P : Option Header → A)
        → m.header obj ≡ some h
        → obj ≡ q
        → P (m.header q) ≡ P (some h)
    at q P e same = ap P (ap m.header (sym same) ∙ e)

module _ (rt : Runtime MarkSweepState) (state : MarkSweepState) (s : IsSound rt state) where
  module _ (a : Answers) (raw : Ptr) (size alloc_flags : ℕ)
      (f1 : (a.object ≡ null) ⊎ (rt.memory.header a.object ≡ none))
      (f2 : (raw ≡ null) ⊎ (rt.memory.header raw ≡ none)) (small : size < 2 ^ 32)
      (fits : rt.stats.total_allocated + size < size_mod) where
    module _ (desc : Descriptor) (room : header_size ≤ size) where
      typed-Sound :
          (not (a.object == null) && a.node_granted) ≡ true
          → Ends (λ r. Sound r.1) (alloc_typed (vtable a) raw rt (some desc) size alloc_flags)
      typed-Sound h =
          let e = alloc_typed-some desc size alloc_flags a raw rt state s.ready.attached room h in
          let (sized, typed) = typed_header_lem desc size alloc_flags room small in
          rw e (
            _,
            grown-IsSound rt state s (typed_memory desc size alloc_flags rt.memory a.object)
                a.object (typed_header desc size alloc_flags) size
                (typed_memory-header desc size alloc_flags rt.memory a.object) sized typed
                (omega arith) (ground arith) (ground arith) fits,
          )

      raw-Sound :
          (not (a.object == null) && a.node_granted) ≡ false
          → Ends (λ r. Sound r.1) (alloc_typed (vtable a) raw rt (some desc) size alloc_flags)
      raw-Sound h =
          let e = alloc_typed_raw desc size alloc_flags a raw rt state s.ready.attached room h in
          elim (Bool-cases (raw == null)) [
            | inl z ↦
                subst (Ends (λ r. Sound r.1))
                  (sym (
                    e
                    ∙ ap
                        (λ b. some (
                          if b then (null, rt) else (
                            raw,
                            with_raw desc size alloc_flags a raw rt state s.ready.attached room,
                          )))
                        z))
                  (state, s)
            | inr z ↦
                subst (Ends (λ r. Sound r.1))
                  (sym (
                    e
                    ∙ ap
                        (λ b. some (
                          if b then (null, rt) else (
                            raw,
                            with_raw desc size alloc_flags a raw rt state s.ready.attached room,
                          )))
                        z))
                  (
                    state,
                    fresh-IsSound rt state s (raw_memory desc size alloc_flags rt.memory raw) raw
                        (raw_header desc size alloc_flags) size
                        (raw_memory-header desc size alloc_flags rt.memory raw)
                        (raw_header_lem desc size alloc_flags room small).0
                        (raw_header_lem desc size alloc_flags room small).1 (omega arith)
                        (ground arith),
                  )
          ]

    pub allocate-Sound :
        (desc : Option Descriptor)
        → Ends (λ r. Sound r.1) (alloc_typed (vtable a) raw rt desc size alloc_flags)
    allocate-Sound none = rw (alloc_typed_refused a raw rt none size alloc_flags refl) (state, s)
    allocate-Sound (some desc) = elim (Bool-cases (ltb size header_size)) [
      | inl h ↦ rw (alloc_typed_refused a raw rt (some desc) size alloc_flags h) (state, s)
      | inr h ↦ elim (Bool-cases (not (a.object == null) && a.node_granted)) [
        | inl g ↦ typed-Sound desc (ground arith) g
        | inr g ↦ raw-Sound desc (ground arith) g
      ]
    ]

  pub store-Sound :
      (a : Answers) (owner slot new_value : Ptr)
      → Sound (store_ref (vtable a) rt owner slot new_value)
  unfolding store_ref set_slot
  store-Sound a owner slot new_value = elim (Bool-cases (slot == null)) [
    | inl h ↦ rw (h, store_ref) (state, s)
    | inr h ↦ rw (h, store_ref) (state, with_memory-IsSound rt state s _ (λ q k. k) (λ q k. refl))
  ]

  -- A write to an object's flags.
  update-IsSound :
      (obj : Ptr) (f : Header → Header)
      → ((h : Header) → is_none (f h).desc ≡ is_none h.desc)
      → ((h : Header) → (f h).size ≡ h.size)
      → IsSound (record rt { memory = update_header rt.memory obj f }) state
  update-IsSound obj f d z =
      with_memory-IsSound rt state s (update_header rt.memory obj f)
        (λ q k. (update_header_lem rt.memory obj f d z q).0 ∙ k)
        (λ q k. (update_header_lem rt.memory obj f d z q).1)

  pub pin-Sound : (obj : Ptr) → Sound (pin rt obj)
  unfolding pin
  pin-Sound obj = elim (Bool-cases (obj == null)) [
    | inl h ↦ rw (h, pin) (state, s)
    | inr h ↦ rw (h, pin) (state, update-IsSound obj with_pin (λ h. refl) (λ h. refl))
  ]

  pub unpin-Sound : (obj : Ptr) → Sound (unpin rt obj)
  unfolding unpin
  unpin-Sound obj = elim (Bool-cases (obj == null)) [
    | inl h ↦ rw (h, unpin) (state, s)
    | inr h ↦ rw (h, unpin) (state, update-IsSound obj without_pin (λ h. refl) (λ h. refl))
  ]
