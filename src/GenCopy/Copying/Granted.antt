-- ===== src/GenCopy/Copying/Granted.antt =====
-- A granted request for a copy keeps the invariant
-- (src/algo/gen_copy_ms/young_copy.c).
use xgc.GenCopy.Copying.Copies.{
  old_copy, slot_within, kept-Outside, kept_placed, kept_header, kept_copy,
}
use xgc.GenCopy.{Forward, GenCopyState, MinorCtx, find_forward, size_at}
use xgc.GenCopy.Copying.{
  Funded, Fund, Spent, OldStart, OldNow, Scene, young, copy, IsScene, Inv, Moved, Settled, among,
}
use xgc.GenCopy.Copying.Blocks.{young_apart}
use xgc.GenCopy.Copying.Forwards.{Ext-cons, Moved-Ext, find_cases}
use xgc.GenCopy.Ending.{free_count_used}
use xgc.MarkSweep.{Node}
use xgc.Runtime.{Runtime}
use xgc.Worklist
use xgc.Worklist.Stack.{stack, push_lem, pushed}
use xgc.Prelude.{
  ℕ, ◌+◌, ◌≤◌, ◌<◌, ◌≡◌, ◌≢◌, ◌⊎◌, inl, inr, refl, sym, ◌∙◌, subst, true, false, ◌&&◌, none, some,
  List, ◌∷◌, leb, ltb, ◌==◌, if◌then◌else◌, Ptr, null, arith, Bool-cases,
}

module _ (sc : Scene) (k : IsScene sc) (pending : List Ptr) (ctx : MinorCtx)
    (i : Inv sc pending ctx) (rt' : Runtime GenCopyState)
    (untouched : (q : Ptr)
      → (copy sc ctx.requests ≢ null
          → (q < copy sc ctx.requests) ⊎ (copy sc ctx.requests + sc.block ≤ q))
      → (rt'.memory.header q ≡ ctx.rt.memory.header q)
        × (rt'.memory.slot q ≡ ctx.rt.memory.slot q)) where
  module _ (obj : Ptr) (start : sc.starts obj ≡ true)
      (fresh : find_forward ctx.state.forwarded obj ≡ none) (ne : copy sc ctx.requests ≢ null)
      (objs : List Node)
      (header : rt'.memory.header (copy sc ctx.requests) ≡ ctx.rt.memory.header obj)
      (slots : (o : ℕ)
        → o < size_at sc.memory obj
        → rt'.memory.slot (copy sc ctx.requests + o) ≡ ctx.rt.memory.slot (obj + o))
      (paid : Funded sc → Spent sc rt'.barriers (ctx.requests + 1))
      (owned : Funded sc
        → OldStart sc
        → OldNow sc (ctx.requests + 1) rt'.barriers rt'.heap rt'.memory.header objs) where
    abbrev pub new_forward : Forward
    new_forward = record { from = obj; to = copy sc ctx.requests }

    abbrev pub made_ctx : MinorCtx
    made_ctx = record {
      rt = rt';
      state = record (ctx.state) {
        old_objects = objs;
        forwarded = new_forward ∷ ctx.state.forwarded;
      };
      wl = Worklist.push true ctx.wl (copy sc ctx.requests);
      requests = ctx.requests + 1;
    }

    made_stack : stack made_ctx.wl ≡ copy sc ctx.requests ∷ stack ctx.wl
    made_stack = (push_lem true ctx.wl (copy sc ctx.requests) i.stack_valid).1 ∙ top
      where
        top : pushed true ctx.wl (copy sc ctx.requests) ≡ copy sc ctx.requests ∷ stack ctx.wl
        top = unfold pushed in ground arith

    -- The new forwarding and the older ones.
    by_cases :
        (P : Ptr → Forward → Type 0)
        → P obj new_forward
        → ((p : Ptr) (f : Forward) → find_forward ctx.state.forwarded p ≡ some f → P p f)
        → (p : Ptr) (g : Forward) → find_forward made_ctx.state.forwarded p ≡ some g
        → P p g
    by_cases P first rest p g e = elim (find_cases new_forward ctx.state.forwarded p g e) [
      | inl (a, b) ↦ subst (λ q. P q g) a (subst (P obj) b first)
      | inr old ↦ rest p g old
    ]

    -- A new copy is at none of the older addresses.
    apart_from :
        (p : Ptr) (f : Forward)
        → find_forward ctx.state.forwarded p ≡ some f
        → f.to ≢ copy sc ctx.requests
    apart_from p f e h =
        let (n, small, at, nn, _) = i.placed p f e in
        ground (arith, k.room, k.apart ctx.requests n (omega arith) ne (λ z. nn (at ∙ z)))

    made-done :
        (p : Ptr) (f : Forward)
        → find_forward ctx.state.forwarded p ≡ some f
        → (among f.to (copy sc ctx.requests ∷ stack ctx.wl) ≡ true)
          ⊎ ((o : ℕ)
              → among o (sc.offsets p) ≡ true
              → (among (f.to + o) pending ≡ true)
                ⊎ Settled sc made_ctx (rt'.memory.slot (f.to + o)))
    unfolding among
    made-done p f e = elim (i.done p f e) [
      | inl m ↦ inl (ground (arith, m))
      | inr m ↦ inr λ o a. elim (m o a) [
        | inl w ↦ inl w
        | inr s ↦ inr λ all.
            subst (λ (t : Ptr). young sc t ≡ false)
              (sym
                ((old_copy sc k pending ctx i rt' untouched) p f o e
                  ((slot_within sc k pending ctx i rt' untouched) p f o e a)).1)
              (s (omega (arith, all)))
      ]
    ]

    made-stacked :
        (x : Ptr)
        → among x (copy sc ctx.requests ∷ stack ctx.wl) ≡ true
        → (p : Ptr) × (f : Forward) × (find_forward made_ctx.state.forwarded p ≡ some f)
          × (f.to ≡ x)
    unfolding among find_forward
    made-stacked x m = elim (Bool-cases (copy sc ctx.requests == x)) [
      | inl h ↦ (obj, new_forward, ground arith, ground (arith, h))
      | inr h ↦
          let (p, f, e, at) = i.stacked x (ground (arith, m, h)) in
          (p, f, Ext-cons new_forward ctx.state.forwarded fresh p f e, at)
    ]

    top_among : (c : Ptr) (s : List Ptr) → among c (c ∷ s) ≡ true
    unfolding among
    top_among c s = ground arith

    made-Fund : Funded sc → Fund sc made_ctx
    made-Fund fd =
        let fund = i.fund fd in
        record {
          all = omega (arith, fund.all);
          spent = paid fd;
          old = owned fd;
          free = omega (
            arith,
            fund.free,
            free_count_used new_forward ctx.state.forwarded sc.state.nursery_space
                sc.state.nursery_capacity fresh,
            one,
          );
        }
      where
        one :
            ◌≡◌ {A = ℕ}
              (if leb sc.state.nursery_space obj
                  && ltb obj (sc.state.nursery_space + sc.state.nursery_capacity)
                then 1
                else 0)
              1
        one = ground (arith, (k.inside obj start).0)

    pub made-Inv : Inv sc pending made_ctx
    made-Inv =
        let x = Ext-cons new_forward ctx.state.forwarded fresh in
        record {
          fund = made-Fund;
          space = i.space;
          capacity = i.capacity;
          count = omega (arith, i.count);
          stack_valid = (push_lem true ctx.wl (copy sc ctx.requests) i.stack_valid).0;
          young_header =
              λ p y. (untouched p (young_apart sc k ctx.requests p y)).0 ∙ i.young_header p y;
          young_slot =
              λ p y. (untouched p (young_apart sc k ctx.requests p y)).1 ∙ i.young_slot p y;
          outside_header = λ p o. (untouched p (o.apart ctx.requests)).0 ∙ i.outside_header p o;
          outside_slot = λ s o.
              Moved-Ext ctx.state.forwarded made_ctx.state.forwarded _ _ x
                ((kept-Outside sc k pending ctx i rt' untouched) s o);
          placed =
              by_cases
                (λ p f.
                  (n : ℕ) × (n < ctx.requests + 1)
                  × (f.to ≡ copy sc n)
                  × (f.to ≢ null)
                  × (sc.starts p ≡ true))
                (ctx.requests, omega arith, refl, ne, start)
                (kept_placed sc k pending ctx i rt' untouched);
          distinct = λ p q f g ef eg.
              by_cases (λ p f. f.to ≡ g.to → p ≡ q)
                (by_cases (λ q g. new_forward.to ≡ g.to → obj ≡ q) (λ h. refl)
                  (λ q g e h. absurd (apart_from q g e (sym h))) q g eg)
                (λ p f e.
                  by_cases (λ q g. f.to ≡ g.to → p ≡ q) (λ h. absurd (apart_from p f e h))
                    (λ q g e'. i.distinct p q f g e e') q g eg)
                p f ef;
          copy_header =
              by_cases (λ p f. rt'.memory.header f.to ≡ sc.memory.header p)
                (header ∙ i.young_header obj (k.inside obj start).0)
                (kept_header sc k pending ctx i rt' untouched);
          copy_slot = λ p f o e.
              by_cases
                (λ p f.
                  o < size_at sc.memory p
                  → Moved made_ctx.state.forwarded (sc.memory.slot (p + o))
                      (rt'.memory.slot (f.to + o)))
                (λ lt.
                  inl (slots o lt ∙ i.young_slot (obj + o) (ground (arith, k.inside obj start))))
                (λ p f e lt.
                  Moved-Ext ctx.state.forwarded made_ctx.state.forwarded _ _ x
                    ((kept_copy sc k pending ctx i rt' untouched) p f o e lt))
                p f e;
          stacked = λ x m. made-stacked x (subst (λ s. among x s ≡ true) made_stack m);
          done =
              by_cases
                (λ p f.
                  (among f.to (stack made_ctx.wl) ≡ true)
                  ⊎ ((o : ℕ)
                      → among o (sc.offsets p) ≡ true
                      → (among (f.to + o) pending ≡ true)
                        ⊎ Settled sc made_ctx (rt'.memory.slot (f.to + o))))
                (inl (
                  subst (λ s. among (copy sc ctx.requests) s ≡ true) (sym made_stack)
                    (top_among (copy sc ctx.requests) (stack ctx.wl))))
                (λ p f e.
                  subst
                    (λ s.
                      (among f.to s ≡ true)
                      ⊎ ((o : ℕ)
                          → among o (sc.offsets p) ≡ true
                          → (among (f.to + o) pending ≡ true)
                            ⊎ Settled sc made_ctx (rt'.memory.slot (f.to + o))))
                    (sym made_stack) (made-done p f e));
        }
