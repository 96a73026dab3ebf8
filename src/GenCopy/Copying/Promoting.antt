-- ===== src/GenCopy/Copying/Promoting.antt =====
-- A promotion keeps the invariant and answers where the object is now
-- (src/algo/gen_copy_ms/young_copy.c).
use xgc.GenCopy.{
  Forward, GenCopyState, MinorCtx, find_forward, size_at, in_nursery, copy_out, promote,
}
use xgc.GenCopy.Copying.{Funded, OldStart, OldNow, Spent, Scene, young, copy, Good, IsScene, Inv}
use xgc.GenCopy.Copying.Blocks.{copied, requests_lem, untouched, made_copy, made-ne-null}
use xgc.GenCopy.Adding.{add_old_node_rest}
use xgc.GenCopy.Copying.Copies.{refused_ctx, refused-Inv, old_copy, slot_within}
use xgc.GenCopy.Copying.Granted.{made_ctx, made-Inv, new_forward}
use xgc.GenCopy.Copying.Forwards.{Ext-refl, Ext-cons, forward_of-some, in_nursery-young, copy-old}
use xgc.GenCopy.Copying.Funding.{never_refused, made-Spent}
use xgc.GenCopy.Copying.Owning.{made-OldNow}
use xgc.GenCopy.Copying.Steps.{Tracked, Onward-refl, Promoted}
use xgc.GenCopy.Ending.{refused_same, made_same}
use xgc.GenCopy.Forwarding
use xgc.GenCopy.Forwarding.{added, refused, copy_out-refused, copy_out-made, known, stays}
use xgc.MarkSweep.{Node}
use xgc.Worklist
use xgc.Prelude.{
  ℕ, ◌+◌, ◌≤◌, ◌<◌, ◌≡◌, ◌≢◌, ◌⊎◌, inl, inr, refl, sym, ◌∙◌, ap, subst, true, false, not, ◌||◌,
  none, some, List, ◌∷◌, ◌==◌, Ptr, null, arith, Bool-cases, Option-cases,
}

module _ (sc : Scene) (k : IsScene sc) (pending : List Ptr) (ctx : MinorCtx)
    (i : Inv sc pending ctx) (obj : Ptr) where
  same_young : in_nursery ctx.state obj ≡ young sc obj
  same_young = in_nursery-young sc ctx.state obj i.space i.capacity k.space

  null_old : (obj == null) ≡ true → young sc obj ≡ false
  null_old h = ground (arith, k.space)

  copy_old : (n : ℕ) → copy sc n ≢ null → young sc (copy sc n) ≡ false
  copy_old n ne =
      subst (λ (t : Ptr). young sc t ≡ false) {x = copy sc n + 0} {y = copy sc n} (omega arith)
        (copy-old sc k n 0 ne k.room)

  stays-Promoted : young sc obj ≡ false → Promoted sc pending ctx obj (obj, ctx)
  stays-Promoted old = record {
    inv = i;
    onward = Onward-refl sc ctx;
    moved = inl refl;
    settled = λ a. old;
    kept = λ s t. refl;
  }

  known-Promoted :
      (f : Forward)
      → find_forward ctx.state.forwarded obj ≡ some f
      → Promoted sc pending ctx obj (f.to, ctx)
  known-Promoted f e =
      let (n, small, at, ne, start) = i.placed obj f e in
      record {
        inv = i;
        onward = Onward-refl sc ctx;
        moved = inr (sym (forward_of-some ctx.state.forwarded obj f e));
        settled =
            λ a. subst (λ (t : Ptr). young sc t ≡ false) (sym at) (copy_old n (λ z. ne (at ∙ z)));
        kept = λ s t. refl;
      }

  module _ (start : sc.starts obj ≡ true) (fresh : find_forward ctx.state.forwarded obj ≡ none)
      (granted : (sc.answers ctx.requests).push_granted ≡ true) where
    abbrev out : Ptr × MinorCtx
    out = copy_out (sc.answers ctx.requests) ctx obj

    same_size : size_at ctx.rt.memory obj ≡ size_at sc.memory obj
    same_size =
        ap (λ o. elim o [ none ↦ 0 | some h ↦ h.size ]) (i.young_header obj (k.inside obj start).0)

    abbrev Apart : Ptr → Type 0
    Apart q =
        copy sc ctx.requests ≢ null
        → (q < copy sc ctx.requests) ⊎ (copy sc ctx.requests + sc.block ≤ q)

    block_only :
        (q : Ptr)
        → Apart q
        → (out.1.rt.memory.header q ≡ ctx.rt.memory.header q)
          × (out.1.rt.memory.slot q ≡ ctx.rt.memory.slot q)
    block_only q apart =
        untouched (sc.answers ctx.requests) ctx obj sc.block k.room
          (omega (arith, same_size, (k.inside obj start).2)) q apart

    Tracked-same :
        (s : Ptr) → Tracked sc ctx.state.forwarded s → out.1.rt.memory.slot s ≡ ctx.rt.memory.slot s
    Tracked-same s (inl o) = (block_only s (o.apart ctx.requests)).1
    Tracked-same s (inr (p, f, o, e, m, at)) =
        subst (λ (t : Ptr). out.1.rt.memory.slot t ≡ ctx.rt.memory.slot t) (sym at)
          (old_copy sc k pending ctx i out.1.rt block_only p f o e
            (slot_within sc k pending ctx i out.1.rt block_only p f o e m)).1

    refused-Promoted :
        refused (sc.answers ctx.requests) ctx obj ≡ true → Promoted sc pending ctx obj out
    refused-Promoted h =
        let (state, wl) = refused_same (sc.answers ctx.requests) ctx obj h in
        let e : (obj, refused_ctx sc k pending ctx i out.1.rt block_only) ≡ out = λ t. (
          sym (copy_out-refused (sc.answers ctx.requests) ctx obj h) t,
          record {
            rt = out.1.rt;
            state = sym state t;
            wl = sym wl t;
            requests = sym (requests_lem (sc.answers ctx.requests) ctx obj) t;
          },
        ) in
        subst (Promoted sc pending ctx obj) e (record {
          inv =
              refused-Inv sc k pending ctx i out.1.rt block_only
                (λ fd. never_refused sc k pending ctx i obj start fresh fd h);
          onward = record {
            ext = Ext-refl ctx.state.forwarded;
            all = λ all. absurd (omega (arith, i.count, all));
            slots = λ s t w all. absurd (omega (arith, i.count, all));
          };
          moved = inl refl;
          settled = λ all. absurd (omega (arith, i.count, all));
          kept = Tracked-same;
        })

    module _ (h : refused (sc.answers ctx.requests) ctx obj ≡ false) where
      nonnull : copy sc ctx.requests ≢ null
      nonnull = made-ne-null (sc.answers ctx.requests) ctx obj h

      copied_header : out.1.rt.memory.header (copy sc ctx.requests) ≡ ctx.rt.memory.header obj
      copied_header = (made_copy (sc.answers ctx.requests) ctx obj h).0

      copied_slots :
          (o : ℕ)
          → o < size_at sc.memory obj
          → out.1.rt.memory.slot (copy sc ctx.requests + o) ≡ ctx.rt.memory.slot (obj + o)
      copied_slots o lt =
          (made_copy (sc.answers ctx.requests) ctx obj h).1 o (omega (arith, same_size))

      paid : Funded sc → Spent sc out.1.rt.barriers (ctx.requests + 1)
      paid fd = made-Spent sc k pending ctx i obj start fresh fd h

      owned :
          Funded sc
          → OldStart sc
          → OldNow sc
              (ctx.requests + 1)
              out.1.rt.barriers
              out.1.rt.heap
              out.1.rt.memory.header
              out.1.state.old_objects
      owned fd s = made-OldNow sc k pending ctx i obj start fresh fd s h

      abbrev made : MinorCtx
      made =
          made_ctx sc k pending ctx i out.1.rt block_only obj start fresh nonnull
            out.1.state.old_objects copied_header copied_slots paid owned

      made_eq : (copy sc ctx.requests, made) ≡ out
      made_eq =
          let (state, wl) = made_same (sc.answers ctx.requests) ctx obj h in
          let shape =
            (add_old_node_rest (sc.answers ctx.requests)
              (record (ctx.rt) { memory = copied (sc.answers ctx.requests) ctx obj }) ctx.state
              (copy sc ctx.requests)).1 in
          let whole : out.1.state ≡ made.state =
            state
            ∙ ap
                (λ (s : GenCopyState). record s {
                  forwarded =
                      new_forward sc k pending ctx i out.1.rt block_only obj start fresh nonnull
                        out.1.state.old_objects copied_header copied_slots paid owned
                      ∷ s.forwarded;
                })
                shape
            ∙ ap
                (λ (ns : List Node). record (ctx.state) {
                  old_objects = ns;
                  forwarded = made.state.forwarded;
                })
                (sym (ap (λ s. s.old_objects) state)) in
          λ t. (
            sym (copy_out-made (sc.answers ctx.requests) ctx obj h).0 t,
            record {
              rt = out.1.rt;
              state = sym whole t;
              wl = sym (wl ∙ ap (λ b. Worklist.push b ctx.wl (copy sc ctx.requests)) granted) t;
              requests = sym (requests_lem (sc.answers ctx.requests) ctx obj) t;
            },
          )

      made-Promoted : Promoted sc pending ctx obj out
      made-Promoted = subst (Promoted sc pending ctx obj) made_eq (record {
        inv =
            made-Inv sc k pending ctx i out.1.rt block_only obj start fresh nonnull
              out.1.state.old_objects copied_header copied_slots paid owned;
        onward = record {
          ext = Ext-cons made_forward ctx.state.forwarded fresh;
          all = λ all. omega (arith, all);
          slots = λ s t w all.
              subst (λ (v : Ptr). young sc v ≡ false) (sym (Tracked-same s t))
                (w (omega (arith, all)));
        };
        moved = inr (sym (forward_of-some made.state.forwarded obj made_forward found));
        settled = λ all. copy_old ctx.requests nonnull;
        kept = Tracked-same;
      })
        where
          made_forward : Forward
          made_forward = record { from = obj; to = copy sc ctx.requests }

          found : find_forward made.state.forwarded obj ≡ some made_forward
          found = unfold find_forward in ground arith

  pub promote-Promoted :
      (granted : (sc.answers ctx.requests).push_granted ≡ true)
      → Good sc obj
      → Promoted sc pending ctx obj (promote sc.answers ctx obj)
  promote-Promoted granted good =
      elim (Bool-cases (obj == null || not (in_nursery ctx.state obj))) [
        | inl h ↦
            subst (Promoted sc pending ctx obj)
              (λ t. (sym (stays sc.answers ctx obj h) t, sym (stays_ctx h) t))
              (stays-Promoted (ground (arith, h, null_old, same_young)))
        | inr h ↦ elim (Option-cases (find_forward ctx.state.forwarded obj)) [
          | inr (f, e) ↦
              subst (Promoted sc pending ctx obj) (sym (known sc.answers ctx obj h f e))
                (known-Promoted f e)
          | inl e ↦
              let start = good (ground (arith, h, same_young)) in
              subst (Promoted sc pending ctx obj) (sym (Forwarding.copied sc.answers ctx obj h e))
                (by_refusal start e granted)
        ]
      ]
    where
      stays_ctx :
          (obj == null || not (in_nursery ctx.state obj)) ≡ true
          → (promote sc.answers ctx obj).1 ≡ ctx
      stays_ctx h = unfold promote in ground (arith, h)

      by_refusal :
          (start : sc.starts obj ≡ true) (fresh : find_forward ctx.state.forwarded obj ≡ none)
          → (sc.answers ctx.requests).push_granted ≡ true
          → Promoted sc pending ctx obj (copy_out (sc.answers ctx.requests) ctx obj)
      by_refusal start fresh g = elim (Bool-cases (refused (sc.answers ctx.requests) ctx obj)) [
        | inl r ↦ refused-Promoted start fresh g r
        | inr r ↦ made-Promoted start fresh g r
      ]
