-- ===== src/GenCopy/Session/Typed.antt =====
-- `gc_alloc_typed`, the handles and the collections of src/core/runtime.c keep the runtime of
-- src/algo/gen_copy_ms/young_copy.c sound.
use xgc.GenCopy.{GenCopyState}
use xgc.GenCopy.Session.{IsSound, Admits, in_space}
use xgc.GenCopy.Session.Allocating.{alloc-Allocated}
use xgc.GenCopy.Session.Keeping.{Sound, Allocated, KeepsSizes, changed-IsSound, update-SizeKept}
use xgc.GenCopy.Table.{CallAnswers, vtable, pin, unpin}
use xgc.MarkSweep.Nodes.{known}
use xgc.Object.{Header, Descriptor, header_size, set_header, calloc_object}
use xgc.Runtime.{Runtime, Handle}
use xgc.Runtime.Allocation.{alloc_typed, filled, with_fallback, completed}
use xgc.Runtime.Flags.{update_header, with_pin, without_pin}
use xgc.Runtime.Handles.{handle_acquire, handle_release, unlink}
use mathlib.Core.Option
use xgc.Prelude.{
  ℕ, ◌≡◌, ◌≢◌, ◌⊎◌, inl, inr, refl, sym, ap, ◌∙◌, subst, true, false, Option, none, some, ◌∷◌, Ptr,
  null, arith, ltb, ◌==◌, Ends, Bool-cases,
}

filled_size :
    (desc : Descriptor) (size alloc_flags : ℕ) (h : Header)
    → h.size ≢ 0
    → (filled desc size alloc_flags h).size ≡ h.size
unfolding filled
filled_size desc size alloc_flags h ne = ground arith

module _ (rt : Runtime GenCopyState) (state : GenCopyState) (s : IsSound rt state) (a : CallAnswers)
    (raw : Ptr) (size alloc_flags : ℕ) (admits : Admits a rt state raw size alloc_flags)
    (desc : Descriptor) where
  completed_eq :
      (obj : Ptr) (r : Runtime GenCopyState)
      → obj ≢ null
      → completed (vtable a) desc size alloc_flags (with_fallback raw size (obj, r))
        ≡ (obj, record r { memory = update_header r.memory obj (filled desc size alloc_flags) })
  completed_eq obj r ne = ground arith

  fallback_eq :
      (obj : Ptr) (r : Runtime GenCopyState)
      → obj ≡ null
      → raw ≢ null
      → completed (vtable a) desc size alloc_flags (with_fallback raw size (obj, r)) ≡ (
        raw,
        record r {
          memory =
              update_header (calloc_object r.memory raw size) raw (filled desc size alloc_flags);
        },
      )
  fallback_eq obj r e ne = ground (arith, e, ne)

  refused_eq :
      (obj : Ptr) (r : Runtime GenCopyState)
      → obj ≡ null
      → raw ≡ null
      → completed (vtable a) desc size alloc_flags (with_fallback raw size (obj, r)) ≡ (null, r)
  refused_eq obj r e z = ground (arith, e, z)

  -- The fallback's block is no object that the algorithm knows.
  fallback-KeepsSizes :
      (r : Runtime GenCopyState) (st : GenCopyState) (k : IsSound r st)
      → st ≡ state
      → raw ≢ null
      → KeepsSizes r st k
          (update_header (calloc_object r.memory raw size) raw (filled desc size alloc_flags))
  fallback-KeepsSizes r st k same ne q c = inl (elsewhere (apart c))
    where
      apart : (known st.old_objects q ≡ true) ⊎ (in_space st q ≡ true) → raw ≢ q
      apart c e = elim admits.fallback [
        | inl z ↦ ne z
        | inr (out, off) ↦
            let here : known state.old_objects q ≡ false =
              ap (known state.old_objects) (sym e) ∙ out in
            let there : in_space state q ≡ false = ap (in_space state) (sym e) ∙ off in
            elim c [
              | inl on ↦
                  ground (arith, on, here, ap (λ (x : GenCopyState). known x.old_objects q) same)
              | inr on ↦ ground (arith, on, there, ap (λ (x : GenCopyState). in_space x q) same)
            ]
      ]

      elsewhere :
          raw ≢ q
          → (update_header
                (calloc_object r.memory raw size)
                raw
                (filled desc size alloc_flags)).header
              q
            ≡ r.memory.header q
      elsewhere ne' = unfold update_header set_header calloc_object in ground (arith, ne')

  completed-Sound :
      (answer : Ptr × Runtime GenCopyState)
      → Allocated state answer
      → Sound (completed (vtable a) desc size alloc_flags (with_fallback raw size answer)).1
  completed-Sound (obj, r) k = elim (Bool-cases (obj == null)) [
    | inr b ↦
        let ne : obj ≢ null = ground (arith, b) in
        subst (λ (x : Ptr × Runtime GenCopyState). Sound x.1) (sym (completed_eq obj r ne))
          (
            k.state',
            changed-IsSound r k.state' k.sound
                (update_header r.memory obj (filled desc size alloc_flags)) r.handles r.stats
                (λ q c.
                  update-SizeKept r.memory obj (filled desc size alloc_flags)
                    (λ h at. filled_size desc size alloc_flags h (k.sized h at ne)) q),
          )
    | inl b ↦
        let e : obj ≡ null = ground (arith, b) in
        elim (Bool-cases (raw == null)) [
          | inl z ↦
              subst (λ (x : Ptr × Runtime GenCopyState). Sound x.1)
                (sym (refused_eq obj r e (ground (arith, z)))) (k.state', k.sound)
          | inr z ↦
              let ne : raw ≢ null = ground (arith, z) in
              subst (λ (x : Ptr × Runtime GenCopyState). Sound x.1) (sym (fallback_eq obj r e ne))
                (
                  k.state',
                  changed-IsSound r k.state' k.sound _ r.handles r.stats
                      (fallback-KeepsSizes r k.state' k.sound (k.same e) ne),
                )
        ]
  ]

  map-Ends :
      (o : Option (Ptr × Runtime GenCopyState))
      → Ends (Allocated state) o
      → Ends
          (λ x. Sound x.1)
          (Option.map
            (λ answer. completed (vtable a) desc size alloc_flags (with_fallback raw size answer))
            o)
  map-Ends none e = e
  map-Ends (some x) e = completed-Sound x e

  pub some-Sound :
      Ends (λ x. Sound x.1) (alloc_typed (vtable a) raw rt (some desc) size alloc_flags)
  unfolding alloc_typed
  some-Sound = elim (Bool-cases (ltb size header_size)) [
    | inl t ↦ rw (t, alloc_typed) (state, s)
    | inr t ↦
        rw (t, alloc_typed)
          (map-Ends _ (alloc-Allocated rt state s desc a raw size alloc_flags admits))
  ]

module _ (rt : Runtime GenCopyState) (state : GenCopyState) (s : IsSound rt state)
    (a : CallAnswers) where
  pub acquire-Sound :
      (node obj : Ptr) (flags : ℕ) → Sound (handle_acquire (vtable a) node rt obj flags).1
  unfolding handle_acquire pin
  acquire-Sound node obj flags = elim (Bool-cases (obj == null)) [
    | inl z ↦ rw (z, handle_acquire) (state, s)
    | inr z ↦ elim (Bool-cases (node == null)) [
      | inl n ↦ rw (z, n, handle_acquire) (state, s)
      | inr n ↦
          rw (z, n, handle_acquire, pin)
            (
              state,
              changed-IsSound rt state s (update_header rt.memory obj with_pin)
                  (record { self = node; target = obj; flags = flags } ∷ rt.handles) rt.stats
                  (λ q c. update-SizeKept rt.memory obj with_pin (λ h at. refl) q),
            )
    ]
  ]

  pub release-Sound : (handle : Option Handle) → Sound (handle_release (vtable a) rt handle)
  unfolding handle_release unpin
  release-Sound none = (state, s)
  release-Sound (some handle) = elim (Bool-cases (handle.target == null)) [
    | inl z ↦
        rw (z, handle_release)
          (
            state,
            changed-IsSound rt state s rt.memory (unlink rt.handles handle.self) rt.stats
                (λ q c. inl refl),
          )
    | inr z ↦
        rw (z, handle_release, unpin)
          (
            state,
            changed-IsSound rt state s (update_header rt.memory handle.target without_pin)
                (unlink rt.handles handle.self) rt.stats
                (λ q c. update-SizeKept rt.memory handle.target without_pin (λ h at. refl) q),
          )
  ]
