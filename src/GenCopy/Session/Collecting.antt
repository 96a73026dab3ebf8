-- ===== src/GenCopy/Session/Collecting.antt =====
-- A collection keeps the runtime sound (src/algo/gen_copy_ms/young_copy.c).
use xgc.GenCopy.{GenCopyState}
use xgc.GenCopy.Copying.{Scene}
use xgc.GenCopy.Full.{collect_full_impl}
use xgc.GenCopy.Minor.{collect_minor_impl}
use xgc.GenCopy.Old.Collecting.{CollectedOld}
use xgc.GenCopy.Old.Promoting.{MinorOutcome, minor-MinorOutcome, collect_full-FullOutcome}
use xgc.GenCopy.Session.{IsSound, in_space, Collects}
use xgc.GenCopy.Session.Keeping.{Sound}
use xgc.GenCopy.Table.{CallAnswers, collect_minor, collect}
use xgc.GenCopy.Walking.{WholeObjects, finished}
use xgc.Object.{Header}
use xgc.Runtime.{Runtime}
use xgc.Prelude.{
  ℕ, ◌+◌, ◌≡◌, sym, ap, ◌∙◌, subst, true, some-injective, Option, some, Ptr, arith, Ends, Ends-map,
}

empty_nursery :
    (f : Ptr → Option Header) (state : GenCopyState)
    → state.nursery_used ≡ 0
    → WholeObjects f (state.nursery_space + state.nursery_used) state.nursery_space
empty_nursery f state e =
    subst (λ stop. WholeObjects f stop state.nursery_space) {x = state.nursery_space}
      {y = state.nursery_space + state.nursery_used} (omega (arith, e)) finished

module _ (a : CallAnswers) (sc : Scene) (rt : Runtime GenCopyState) (k : Collects a sc rt)
    (state : GenCopyState) (s : IsSound rt state) where
  pub same_state : state ≡ sc.state
  same_state = some-injective state sc.state (sym s.old.attached ∙ k.attached)

  pub minor-IsSound :
      (rt1 : Runtime GenCopyState) (m : MinorOutcome sc rt rt1) → IsSound rt1 m.state
  minor-IsSound rt1 m = record {
    old = m.old;
    space = λ z. s.space (ap (λ x. x.nursery_space) same_state ∙ sym m.space ∙ z);
    base =
        m.account.0
        ∙ ap (λ h. h.young_base) (sym k.good.heap)
        ∙ s.base
        ∙ ap (λ x. x.nursery_space) same_state
        ∙ sym m.space;
    capacity =
        m.account.1
        ∙ ap (λ h. h.young_capacity) (sym k.good.heap)
        ∙ s.capacity
        ∙ ap (λ x. x.nursery_capacity) same_state
        ∙ sym m.capacity;
    used = m.account.2 ∙ sym m.empty;
    room = omega (arith, m.empty);
    fits = omega (arith, s.fits, ap (λ x. x.nursery_capacity) same_state, m.capacity);
    outside = λ q on. ground (arith, m.outside q on, m.space, m.capacity);
    laid = empty_nursery rt1.memory.header m.state m.empty;
  }

  full-Sound :
      (rt1 : Runtime GenCopyState) (m : MinorOutcome sc rt rt1) (rt' : Runtime GenCopyState)
      (state' : GenCopyState)
      → CollectedOld rt1 m.state rt' state'
      → Sound rt'
  full-Sound rt1 m rt' state' c =
      let s1 = minor-IsSound rt1 m in
      (
        state',
        record {
          old = c.old;
          space = λ z. s1.space (sym (ap (λ x. x.nursery_space) c.nursery) ∙ z);
          base = c.young.base ∙ s1.base ∙ sym (ap (λ x. x.nursery_space) c.nursery);
          capacity = c.young.capacity ∙ s1.capacity ∙ sym (ap (λ x. x.nursery_capacity) c.nursery);
          used = c.young.used ∙ s1.used ∙ sym (ap (λ x. x.nursery_used) c.nursery);
          room = omega (
            arith,
            s1.room,
            ap (λ x. x.nursery_used) c.nursery,
            ap (λ x. x.nursery_capacity) c.nursery,
          );
          fits = omega (arith, s1.fits, ap (λ x. x.nursery_capacity) c.nursery);
          outside = λ q on. ap (λ x. in_space x q) c.nursery ∙ s1.outside q (c.subset q on);
          laid =
              empty_nursery rt'.memory.header state' (ap (λ x. x.nursery_used) c.nursery ∙ m.empty);
        },
      )

  -- What a minor collection answers.
  pub minor-outcome :
      (rt1 : Runtime GenCopyState) × (collect_minor a rt ≡ some rt1) × MinorOutcome sc rt rt1
  minor-outcome =
      let (rt1, eq, m) =
        minor-MinorOutcome sc k.scene k.granted rt k.same k.good k.funded k.start a.owners_granted
          k.attached k.used in
      (
        rt1,
        ap (λ x. collect_minor_impl x a.owners_granted a.snapshot_granted rt) k.promotions
            ∙ ap (λ b. collect_minor_impl sc.answers a.owners_granted b rt) k.snapshot
            ∙ eq,
        m,
      )

  pub full-outcome : ((n : ℕ) → a.grants n ≡ true) → Ends Sound (collect a rt)
  full-outcome all =
      subst (Ends Sound)
        (sym (
          ap (λ x. collect_full_impl x a.owners_granted a.snapshot_granted a.grants rt) k.promotions
          ∙ ap (λ b. collect_full_impl sc.answers a.owners_granted b a.grants rt) k.snapshot))
        (Ends-map _ Sound (collect_full_impl sc.answers a.owners_granted true a.grants rt)
          (λ r o. full-Sound o.0 o.1 r o.2 o.3)
          (collect_full-FullOutcome sc k.scene k.granted rt k.same k.good k.funded k.start
            a.owners_granted k.attached k.used a.grants all))
