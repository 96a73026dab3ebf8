-- ===== src/GenCopy/Session/Allocating.antt =====
-- An allocation keeps the runtime sound (`gc_gen_alloc` of src/algo/gen_copy_ms/young_copy.c).
use xgc.GenCopy.{GenCopyState, Answers, add_old_node, freed, size_at}
use xgc.GenCopy.Algorithm.{alloc, alloc_young, alloc_old, aligned, header_of}
use xgc.GenCopy.Bumping.{aligned_lem}
use xgc.GenCopy.Old.{Agrees}
use xgc.GenCopy.Old.Accounts.{with_accounts}
use xgc.GenCopy.Old.Adding.{Agrees-sizes, Added, Fits, add_old_node-Added}
use xgc.GenCopy.Copying.{Scene}
use xgc.GenCopy.Session.{IsSound, Admits, Collects, in_space}
use xgc.MarkSweep.Algorithm.{record_alloc}
use xgc.MarkSweep.Nodes.{known}
use xgc.Object.{
  Header, Descriptor, set_header, calloc_object, header_size, alloc_pinned, object_flag_pinned,
}
use xgc.Runtime.{Runtime, Stats}
use xgc.Runtime.Flags.{has_flag}
use xgc.Runtime.Freeing.{bytes_at}
use xgc.Prelude.{
  ℕ, ◌+◌, ◌/◌, some-injective, size_mod, Option, ◌≤◌, ◌<◌, ◌≡◌, ◌≢◌, inl, inr, refl, sym, ap, ◌∙◌,
  subst, Bool, true, false, not, ◌&&◌, some, Ptr, null, arith, ◌==◌, leb, ltb, if◌then◌else◌, Ends,
  Bool-cases,
}
use xgc.GenCopy.Session.Bumping.{alloc_young-Allocated}
use xgc.GenCopy.Session.Collecting.{minor-outcome, minor-IsSound, same_state}
use xgc.GenCopy.Session.Keeping.{Allocated}
use xgc.GenCopy.Table.{CallAnswers, collect_minor}
use xgc.GenCopy.Walking.{WholeObjects, WholeObjects-same}

module _ (rt : Runtime GenCopyState) (state : GenCopyState) (s : IsSound rt state)
    (desc : Descriptor) where
  -- An object of its own block.
  module _ (ca : CallAnswers) (fallback : Ptr) (size alloc_flags : ℕ)
      (admits : Admits ca rt state fallback size alloc_flags) where
    abbrev a : Answers
    a = ca.old

    abbrev raw : Ptr
    raw = ca.raw

    abbrev al : ℕ
    al = aligned size

    abbrev pin : ℕ
    pin = if has_flag alloc_flags alloc_pinned then object_flag_pinned else 0

    abbrev made : Runtime GenCopyState
    made = record rt {
      memory = set_header (calloc_object rt.memory raw al) raw (some (header_of desc al pin));
    }

    abbrev asked : Bool × Runtime GenCopyState × GenCopyState
    asked = add_old_node a made state raw

    module _ (ne : raw ≢ null) where
      fresh : known state.old_objects raw ≡ false
      fresh = elim admits.unused [ inl z ↦ absurd (ne z) | inr h ↦ h.0 ]

      outside_raw : in_space state raw ≡ false
      outside_raw = elim admits.unused [ inl z ↦ absurd (ne z) | inr h ↦ h.1 ]

      other : (q : Ptr) → known state.old_objects q ≡ true → raw ≢ q
      other q on e = ground (arith, on, fresh, ap (known state.old_objects) e)

      made_same : (q : Ptr) → raw ≢ q → made.memory.header q ≡ rt.memory.header q
      unfolding set_header calloc_object
      made_same q ne' = ground (arith, ne')

      made_size : size_at made.memory raw ≡ al
      unfolding set_header
      made_size = ground (arith, admits.small)

      asked-Added : Added made state raw asked
      asked-Added =
          add_old_node-Added a made state raw s.old.barriers
            (Agrees-sizes rt.barriers rt.heap rt.memory.header made.memory.header state.old_objects
              (λ q on. ap bytes_at (sym (made_same q (other q on)))) s.old.agrees)
            ne fresh (subst (λ (n : ℕ). Fits rt.barriers rt.heap n) (sym made_size) admits.fits)

      -- The allocator's block does not start in the nursery.
      not_inside :
          (q : Ptr)
          → state.nursery_space ≤ q
          → q < state.nursery_space + state.nursery_used
          → raw ≢ q
      not_inside q lo hi e = ground (arith, lo, hi, s.room, outside_raw, ap (in_space state) e)

      laid_made :
          WholeObjects made.memory.header
            (state.nursery_space + state.nursery_used)
            state.nursery_space
      laid_made =
          WholeObjects-same rt.memory.header made.memory.header
            (state.nursery_space + state.nursery_used) state.nursery_space
            (λ q lo hi. made_same q (not_inside q lo hi)) s.laid

      header_at_raw : made.memory.header raw ≡ some (header_of desc al pin)
      unfolding set_header
      header_at_raw = ground arith

      not_empty : al ≢ 0 → (h : Header) → made.memory.header raw ≡ some h → h.size ≢ 0
      not_empty some_size h at = omega (
        arith,
        ap (λ (x : Header). x.size)
            (some-injective (header_of desc al pin) h (sym header_at_raw ∙ at)),
        admits.small,
        some_size,
      )

      abbrev after : Runtime GenCopyState
      after = with_accounts made asked.1.barriers asked.1.heap

      added-Sound :
          asked.0 ≡ true
          → (stats : Stats)
          → IsSound (record (asked.1) { algo_state = some asked.2; stats = stats }) asked.2
      added-Sound h stats =
          let d = asked-Added in
          let same : asked.2 ≡ record state { old_objects = asked.2.old_objects } = d.state_rest in
          subst
            (λ (r : Runtime GenCopyState).
              IsSound (record r { algo_state = some asked.2; stats = stats }) asked.2)
            (sym d.rest)
            (record {
              old = record {
                attached = refl;
                worklist = record { size = s.old.worklist.size; pointer = s.old.worklist.pointer };
                barriers = d.valid;
                agrees = d.agrees;
              };
              space = λ z. s.space (sym (ap (λ x. x.nursery_space) same) ∙ z);
              base = d.young.base ∙ s.base ∙ sym (ap (λ x. x.nursery_space) same);
              capacity = d.young.capacity ∙ s.capacity ∙ sym (ap (λ x. x.nursery_capacity) same);
              used = d.young.used ∙ s.used ∙ sym (ap (λ x. x.nursery_used) same);
              room =
                  omega (
                    arith,
                    s.room,
                    ap (λ x. x.nursery_used) same,
                    ap (λ x. x.nursery_capacity) same,
                  );
              fits = omega (arith, s.fits, ap (λ x. x.nursery_capacity) same);
              outside = λ q on. ap (λ x. in_space x q) same ∙ elim (Bool-cases (raw == q)) [
                | inl e ↦ ap (in_space state) {x = q} {y = raw} (ground (arith, e)) ∙ outside_raw
                | inr e ↦ s.outside q (ground (arith, on, d.known_after q, e))
              ];
              laid =
                  subst
                    (λ (x : GenCopyState).
                      WholeObjects made.memory.header (x.nursery_space + x.nursery_used)
                        x.nursery_space)
                    (sym same) laid_made;
            })

      refused-Sound : asked.0 ≡ false → IsSound (freed asked.1 raw) state
      refused-Sound h =
          let d = asked-Added in
          let g =
            subst
              (λ (x : GenCopyState).
                Agrees asked.1.barriers asked.1.heap made.memory.header x.old_objects)
              (d.refused h) d.agrees in
          subst (λ (r : Runtime GenCopyState). IsSound (freed r raw) state) (sym d.rest)
            (record {
              old = record {
                attached = s.old.attached;
                worklist = record { size = s.old.worklist.size; pointer = s.old.worklist.pointer };
                barriers = d.valid;
                agrees =
                    Agrees-sizes asked.1.barriers asked.1.heap made.memory.header
                      (freed after raw).memory.header state.old_objects
                      (λ q on. ap bytes_at (sym (kept q (other q on)))) g;
              };
              space = s.space;
              base = d.young.base ∙ s.base;
              capacity = d.young.capacity ∙ s.capacity;
              used = d.young.used ∙ s.used;
              room = s.room;
              fits = s.fits;
              outside = s.outside;
              laid =
                  WholeObjects-same made.memory.header (freed after raw).memory.header
                    (state.nursery_space + state.nursery_used) state.nursery_space
                    (λ q lo hi. kept q (not_inside q lo hi)) laid_made;
            })
        where
          kept : (q : Ptr) → raw ≢ q → (freed after raw).memory.header q ≡ made.memory.header q
          kept q ne' = unfold set_header in ground (arith, ne')

    refused-Allocated : Allocated state (null, rt)
    refused-Allocated = record {
      state' = state;
      sound = s;
      same = λ z. refl;
      sized = λ h at ne. absurd (ne refl);
    }

    alloc_old-Allocated : al ≢ 0 → Allocated state (alloc_old a raw rt state desc al alloc_flags)
    unfolding alloc_old
    alloc_old-Allocated some_size = elim (Bool-cases (raw == null)) [
      | inl z ↦ rw (z, alloc_old) refused-Allocated
      | inr z ↦ elim (Bool-cases asked.0) [
        | inl h ↦
            let ne : raw ≢ null = ground (arith, z) in
            rw (z, h, alloc_old)
              (record {
                state' = asked.2;
                sound = added-Sound ne h (record_alloc asked.1.stats al);
                same = λ e. absurd (ne e);
                sized = λ x at _. not_empty ne some_size x (
                    sym
                      (ap (λ (r : Runtime GenCopyState). r.memory.header raw) (asked-Added ne).rest)
                    ∙ at);
              })
        | inr h ↦
            rw (z, h, alloc_old)
              (record {
                state' = state;
                sound = refused-Sound (ground (arith, z)) h;
                same = λ e. refl;
                sized = λ x at ne. absurd (ne refl);
              })
      ]
    ]

    abbrev answer : Option (Ptr × Runtime GenCopyState)
    answer =
        alloc ca.promotions ca.owners_granted ca.snapshot_granted a raw rt (some desc) size
          alloc_flags

    abbrev is_young : Bool
    is_young = not (has_flag alloc_flags alloc_pinned) && leb al (state.nursery_capacity / 2)

    alloc_tiny : size < header_size → answer ≡ some (null, rt)
    unfolding alloc
    alloc_tiny small = ground (arith, s.old.attached)

    module _ (room : header_size ≤ size) where
      some_size : 0 < al
      some_size = ground (arith, (aligned_lem size admits.size_fits).0, room)

      alloc_large : is_young ≡ false → answer ≡ some (alloc_old a raw rt state desc al alloc_flags)
      unfolding alloc
      alloc_large h = ground (arith, s.old.attached, h, room)

      module _ (h : is_young ≡ true) where
        alloc_small :
            state.nursery_used + al ≤ state.nursery_capacity
            → answer ≡ some (alloc_young rt state desc al)
        unfolding alloc
        alloc_small free = ground (arith, s.old.attached, h, s.fits, s.room, free, room)

        alloc_collecting :
            state.nursery_capacity < state.nursery_used + al
            → (rt1 : Runtime GenCopyState) (state1 : GenCopyState) → collect_minor ca rt ≡ some rt1
            → rt1.algo_state ≡ some state1
            → state1.nursery_used + al ≤ state1.nursery_capacity
            → state1.nursery_capacity < size_mod
            → answer ≡ some (alloc_young rt1 state1 desc al)
        unfolding alloc
        alloc_collecting full rt1 state1 eq at free fits =
            ground (arith, s.old.attached, h, eq, at, free, fits, s.room, s.fits, room)

        enough : state.nursery_used + al ≤ state.nursery_capacity → Ends (Allocated state) answer
        enough free =
            subst (Ends (Allocated state)) (sym (alloc_small free))
              (alloc_young-Allocated rt state s desc al some_size free admits.small)

        after_collection :
            state.nursery_capacity < state.nursery_used + al
            → (sc : Scene) → Collects ca sc rt
            → Ends (Allocated state) answer
        after_collection full sc k =
            let (rt1, eq, m) = minor-outcome ca sc rt k state s in
            let s1 = minor-IsSound ca sc rt k state s rt1 m in
            let capacity : m.state.nursery_capacity ≡ state.nursery_capacity =
              m.capacity ∙ sym (ap (λ x. x.nursery_capacity) (same_state ca sc rt k state s)) in
            let free : m.state.nursery_used + al ≤ m.state.nursery_capacity =
              ground (arith, h, m.empty, capacity) in
            let y = alloc_young-Allocated rt1 m.state s1 desc al some_size free admits.small in
            subst (Ends (Allocated state))
              (sym (alloc_collecting full rt1 m.state eq m.old.attached free s1.fits))
              (record {
                state' = y.state';
                sound = y.sound;
                same = λ z. unfold alloc_young in absurd (s1.space (omega (arith, z)));
                sized = y.sized;
              })

        young-Allocated : Ends (Allocated state) answer
        young-Allocated = elim admits.now [
          | inl p ↦ absurd (ground (arith, h, p))
          | inr r ↦ elim r [
            | inl l ↦ absurd (ground (arith, h, l))
            | inr f ↦ elim f [
              | inl free ↦ enough free
              | inr (sc, k) ↦
                  elim (Bool-cases (leb (state.nursery_used + al) state.nursery_capacity)) [
                    | inl b ↦ enough (ground (arith, b))
                    | inr b ↦ after_collection (ground (arith, b)) sc k
                  ]
            ]
          ]
        ]

    pub alloc-Allocated : Ends (Allocated state) answer
    alloc-Allocated = elim (Bool-cases (ltb size header_size)) [
      | inl t ↦
          subst (Ends (Allocated state)) (sym (alloc_tiny (ground (arith, t)))) refused-Allocated
      | inr t ↦
          let room : header_size ≤ size = ground (arith, t) in
          elim (Bool-cases is_young) [
            | inl h ↦ young-Allocated room h
            | inr h ↦
                subst (Ends (Allocated state)) (sym (alloc_large room h))
                  (alloc_old-Allocated (omega (arith, some_size room)))
          ]
    ]
