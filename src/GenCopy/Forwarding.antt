-- ===== src/GenCopy/Forwarding.antt =====
-- Promotions of src/algo/gen_copy_ms/young_copy.c: an object is copied once.
use xgc.GenCopy.{
  Forward, GenCopyState, Answers, MinorCtx, in_nursery, find_forward, copy_object, add_old_node,
  copy_out, promote,
}
use xgc.GenCopy.{size_at}
use xgc.GenCopy.Adding.{add_old_node_rest}
use xgc.Runtime.{Runtime}
use xgc.Prelude.{
  ℕ, ◌≡◌, ◌≢◌, refl, sym, ap, subst, ◌∙◌, List, Bool, true, false, not, ◌||◌, none, some, arith,
  ◌==◌, Ptr, null, ◌∷◌, Option-cases, Bool-cases, inl, inr,
}

add_old_node-in_nursery :
    (a : Answers) (rt : Runtime GenCopyState) (state : GenCopyState) (obj q : Ptr)
    → in_nursery (add_old_node a rt state obj).2 q ≡ in_nursery state q
unfolding in_nursery
add_old_node-in_nursery a rt state obj q =
    ap (λ s. in_nursery s q) (add_old_node_rest a rt state obj).1

find_front :
    (obj copy : Ptr) (fs : List Forward)
    → find_forward (record { from = obj; to = copy } ∷ fs) obj
      ≡ some (record { from = obj; to = copy })
unfolding find_forward
find_front obj copy fs = ground arith

module _ (a : Answers) (ctx : MinorCtx) (obj : Ptr) where
  abbrev pub added : Bool × Runtime GenCopyState × GenCopyState
  added =
      add_old_node a
        (record (ctx.rt) {
          memory = copy_object ctx.rt.memory obj a.copy (size_at ctx.rt.memory obj);
        })
        ctx.state a.copy

  unfoldable pub refused : Bool
  refused = a.copy == null || (not a.forward_granted || not added.0)

  pub copy_out-refused : refused ≡ true → (copy_out a ctx obj).0 ≡ obj
  unfolding copy_out refused
  copy_out-refused h = ground (arith, h)

  pub copy_out-made :
      refused ≡ false
      → ((copy_out a ctx obj).0 ≡ a.copy)
        × ((copy_out a ctx obj).1.state ≡ record (added.2) {
          forwarded = record { from = obj; to = a.copy } ∷ added.2.forwarded;
        })
  unfolding copy_out refused
  copy_out-made h = (ground (arith, h), ground (arith, h))

  -- A copy that was made is found again, and the nursery is where it was.
  copy_out_lem :
      (copy_out a ctx obj).0 ≢ obj
      → (find_forward (copy_out a ctx obj).1.state.forwarded obj
          ≡ some (record { from = obj; to = (copy_out a ctx obj).0 }))
        × (in_nursery (copy_out a ctx obj).1.state obj ≡ in_nursery ctx.state obj)
  unfolding in_nursery
  copy_out_lem moved = elim (Bool-cases refused) [
    | inl h ↦ absurd (moved (copy_out-refused h))
    | inr h ↦
        let (to, state) = copy_out-made h in
        rw (to, state)
          (
            find_front obj a.copy added.2.forwarded,
            add_old_node-in_nursery a
                (record (ctx.rt) {
                  memory = copy_object ctx.rt.memory obj a.copy (size_at ctx.rt.memory obj);
                })
                ctx.state a.copy obj,
          )
  ]

module _ (answers : ℕ → Answers) (ctx : MinorCtx) (obj : Ptr) where
  pub stays :
      (obj == null || not (in_nursery ctx.state obj)) ≡ true → (promote answers ctx obj).0 ≡ obj
  unfolding promote
  stays h = ground (arith, h)

  pub known :
      (obj == null || not (in_nursery ctx.state obj)) ≡ false
      → (f : Forward) → find_forward ctx.state.forwarded obj ≡ some f
      → promote answers ctx obj ≡ (f.to, ctx)
  unfolding promote
  known h f e = rw (h, e, promote) refl

  pub copied :
      (obj == null || not (in_nursery ctx.state obj)) ≡ false
      → find_forward ctx.state.forwarded obj ≡ none
      → promote answers ctx obj ≡ copy_out (answers ctx.requests) ctx obj
  unfolding promote
  copied h e = rw (h, e, promote) refl

-- Once an object has been copied, every further promotion of it answers the same copy and changes
-- nothing.
pub promote-promote :
    (answers : ℕ → Answers) (ctx : MinorCtx) (obj : Ptr)
    → (promote answers ctx obj).0 ≢ obj
    → promote answers (promote answers ctx obj).1 obj ≡ promote answers ctx obj
promote-promote answers ctx obj moved =
    elim (Bool-cases (obj == null || not (in_nursery ctx.state obj))) [
      | inl h ↦ absurd (moved (stays answers ctx obj h))
      | inr h ↦ elim (Option-cases (find_forward ctx.state.forwarded obj)) [
        | inr (f, e) ↦
            subst (λ r. promote answers r.1 obj ≡ r) (sym (known answers ctx obj h f e))
              (known answers ctx obj h f e)
        | inl e ↦
            let eq = copied answers ctx obj h e in
            subst (λ r. promote answers r.1 obj ≡ r) (sym eq)
              (again h (λ k. moved (ap (λ r. r.0) eq ∙ k)))
      ]
    ]
  where
    again :
        (obj == null || not (in_nursery ctx.state obj)) ≡ false
        → (copy_out (answers ctx.requests) ctx obj).0 ≢ obj
        → promote answers (copy_out (answers ctx.requests) ctx obj).1 obj
          ≡ copy_out (answers ctx.requests) ctx obj
    again h m =
        let c = copy_out (answers ctx.requests) ctx obj in
        let (found, place) = copy_out_lem (answers ctx.requests) ctx obj m in
        known answers c.1 obj (ground (arith, h, place)) (record { from = obj; to = c.0 }) found
