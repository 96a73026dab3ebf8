-- ===== src/GenCopy/Copying/Copies.antt =====
-- What a request for a copy leaves alone, and that a refused one keeps the
-- invariant
-- (src/algo/gen_copy_ms/young_copy.c).
use xgc.GenCopy.{Forward, GenCopyState, MinorCtx, find_forward, size_at}
use xgc.GenCopy.Copying.{Funded, Scene, copy, Outside, IsScene, Inv, Moved, among}
use xgc.GenCopy.Copying.Blocks.{young_apart, placed_apart}
use xgc.Runtime.{Runtime}
use xgc.Prelude.{
  ℕ, ◌+◌, ◌≤◌, ◌<◌, ◌≡◌, ◌≢◌, ◌⊎◌, inl, inr, sym, ◌∙◌, subst, true, some, List, Ptr, null, arith,
}

module _ (sc : Scene) (k : IsScene sc) (pending : List Ptr) (ctx : MinorCtx)
    (i : Inv sc pending ctx) (rt' : Runtime GenCopyState)
    (untouched : (q : Ptr)
      → (copy sc ctx.requests ≢ null
          → (q < copy sc ctx.requests) ⊎ (copy sc ctx.requests + sc.block ≤ q))
      → (rt'.memory.header q ≡ ctx.rt.memory.header q)
        × (rt'.memory.slot q ≡ ctx.rt.memory.slot q)) where
  -- The older copies are outside the block.
  pub old_copy :
      (p : Ptr) (f : Forward) (o : ℕ)
      → find_forward ctx.state.forwarded p ≡ some f
      → o < sc.block
      → (rt'.memory.header (f.to + o) ≡ ctx.rt.memory.header (f.to + o))
        × (rt'.memory.slot (f.to + o) ≡ ctx.rt.memory.slot (f.to + o))
  old_copy p f o e lt =
      let (n, small, at, ne, _) = i.placed p f e in
      untouched (f.to + o) (λ nn.
        subst
          (λ (t : ℕ). (t + o < copy sc ctx.requests) ⊎ (copy sc ctx.requests + sc.block ≤ t + o))
          (sym at) (placed_apart sc k ctx.requests n o small lt (λ z. ne (at ∙ z)) nn))

  old_header :
      (p : Ptr) (f : Forward)
      → find_forward ctx.state.forwarded p ≡ some f
      → rt'.memory.header f.to ≡ ctx.rt.memory.header f.to
  old_header p f e =
      subst (λ (t : ℕ). rt'.memory.header t ≡ ctx.rt.memory.header t) {x = f.to + 0} {y = f.to}
        (omega arith) (old_copy p f 0 e k.room).0

  within :
      (p : Ptr) (f : Forward) (o : ℕ)
      → find_forward ctx.state.forwarded p ≡ some f
      → o < size_at sc.memory p
      → o < sc.block
  within p f o e lt =
      let (n, small, at, ne, start) = i.placed p f e in omega (arith, (k.inside p start).2)

  pub slot_within :
      (p : Ptr) (f : Forward) (o : ℕ)
      → find_forward ctx.state.forwarded p ≡ some f
      → among o (sc.offsets p) ≡ true
      → o < sc.block
  slot_within p f o e m =
      let (n, small, at, ne, start) = i.placed p f e in
      within p f o e (k.slots_inside p o start m).0

  pub kept-Outside :
      (s : Ptr) → Outside sc s → Moved ctx.state.forwarded (sc.memory.slot s) (rt'.memory.slot s)
  kept-Outside s o =
      subst (Moved ctx.state.forwarded (sc.memory.slot s))
        (sym (untouched s (o.apart ctx.requests)).1) (i.outside_slot s o)

  pub kept_placed :
      (p : Ptr) (f : Forward)
      → find_forward ctx.state.forwarded p ≡ some f
      → (n : ℕ) × (n < ctx.requests + 1) × (f.to ≡ copy sc n) × (f.to ≢ null) × (sc.starts p ≡ true)
  kept_placed p f e =
      let (n, small, at, ne, start) = i.placed p f e in (n, omega arith, at, ne, start)

  pub kept_header :
      (p : Ptr) (f : Forward)
      → find_forward ctx.state.forwarded p ≡ some f
      → rt'.memory.header f.to ≡ sc.memory.header p
  kept_header p f e = old_header p f e ∙ i.copy_header p f e

  pub kept_copy :
      (p : Ptr) (f : Forward) (o : ℕ)
      → find_forward ctx.state.forwarded p ≡ some f
      → o < size_at sc.memory p
      → Moved ctx.state.forwarded (sc.memory.slot (p + o)) (rt'.memory.slot (f.to + o))
  kept_copy p f o e lt =
      subst (Moved ctx.state.forwarded (sc.memory.slot (p + o)))
        (sym (old_copy p f o e (within p f o e lt)).1) (i.copy_slot p f o e lt)

  abbrev pub refused_ctx : MinorCtx
  refused_ctx = record { rt = rt'; state = ctx.state; wl = ctx.wl; requests = ctx.requests + 1 }

  pub refused-Inv : (Funded sc → ⊥) → Inv sc pending refused_ctx
  refused-Inv lost = record {
    fund = λ fd. absurd (lost fd);
    space = i.space;
    capacity = i.capacity;
    count = omega (arith, i.count);
    stack_valid = i.stack_valid;
    young_header = λ p y. (untouched p (young_apart sc k ctx.requests p y)).0 ∙ i.young_header p y;
    young_slot = λ p y. (untouched p (young_apart sc k ctx.requests p y)).1 ∙ i.young_slot p y;
    outside_header = λ p o. (untouched p (o.apart ctx.requests)).0 ∙ i.outside_header p o;
    outside_slot = kept-Outside;
    placed = kept_placed;
    distinct = i.distinct;
    copy_header = kept_header;
    copy_slot = kept_copy;
    stacked = i.stacked;
    done = λ p f e. elim (i.done p f e) [
      | inl m ↦ inl m
      | inr m ↦ inr λ o a. inr λ all. absurd (omega (arith, i.count, all))
    ];
  }
