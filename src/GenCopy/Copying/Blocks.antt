-- ===== src/GenCopy/Copying/Blocks.antt =====
-- What a request for a copy writes: only the block that the allocator answers
-- (src/algo/gen_copy_ms/young_copy.c).
use xgc.GenCopy.{Answers, MinorCtx, size_at, copy_object, copy_out}
use xgc.GenCopy.Copying.{Scene, young, copy, IsScene}
use xgc.GenCopy.Adding.{add_old_node_rest}
use xgc.GenCopy.Forwarding.{refused}
use xgc.Object.{Memory, set_header}
use xgc.Prelude.{
  ℕ, ◌+◌, ◌-◌, ◌≤◌, ◌<◌, ◌≡◌, ◌≢◌, ◌⊎◌, inl, inr, ◌∙◌, ap, true, false, none, Ptr, null, arith,
  ◌==◌, if◌then◌else◌, Bool-cases,
}

module _ (a : Answers) (ctx : MinorCtx) (obj : Ptr) where
  abbrev pub copied : Memory
  copied = copy_object ctx.rt.memory obj a.copy (size_at ctx.rt.memory obj)

  pub requests_lem : (copy_out a ctx obj).1.requests ≡ ctx.requests + 1
  unfolding copy_out
  requests_lem = ground arith

  refused_memory :
      refused a ctx obj ≡ true
      → (copy_out a ctx obj).1.rt.memory
        ≡ (if a.copy == null then ctx.rt.memory else set_header copied a.copy none)
  unfolding copy_out refused
  refused_memory h = ground (
    arith,
    h,
    ap (λ r. r.memory)
        (add_old_node_rest a (record (ctx.rt) { memory = copied }) ctx.state a.copy).0,
  )

  pub made_memory : refused a ctx obj ≡ false → (copy_out a ctx obj).1.rt.memory ≡ copied
  unfolding copy_out refused
  made_memory h = ground (
    arith,
    h,
    ap (λ r. r.memory)
        (add_old_node_rest a (record (ctx.rt) { memory = copied }) ctx.state a.copy).0,
  )

  pub made-ne-null : refused a ctx obj ≡ false → a.copy ≢ null
  unfolding refused
  made-ne-null h = ground (arith, h)

  -- Outside the block nothing is written.
  module _ (block : ℕ) (room : 0 < block) (fits : size_at ctx.rt.memory obj ≤ block) (q : Ptr)
      (apart : a.copy ≢ null → (q < a.copy) ⊎ (a.copy + block ≤ q)) where
    copied_same :
        a.copy ≢ null
        → (copied.header q ≡ ctx.rt.memory.header q) × (copied.slot q ≡ ctx.rt.memory.slot q)
    unfolding copy_object
    copied_same ne = (ground (arith, apart ne), ground (arith, apart ne))

    freed_same :
        a.copy ≢ null
        → ((set_header copied a.copy none).header q ≡ ctx.rt.memory.header q)
          × ((set_header copied a.copy none).slot q ≡ ctx.rt.memory.slot q)
    unfolding set_header
    freed_same ne = (ground (arith, apart ne, copied_same ne), (copied_same ne).1)

    pub untouched :
        ((copy_out a ctx obj).1.rt.memory.header q ≡ ctx.rt.memory.header q)
        × ((copy_out a ctx obj).1.rt.memory.slot q ≡ ctx.rt.memory.slot q)
    untouched = elim (Bool-cases (refused a ctx obj)) [
      | inr h ↦
          let e = made_memory h in
          let c = copied_same (made-ne-null h) in
          (ap (λ m. m.header q) e ∙ c.0, ap (λ m. m.slot q) e ∙ c.1)
      | inl h ↦ elim (Bool-cases (a.copy == null)) [
        | inl z ↦
            let e =
              refused_memory h
              ∙ ap (λ b. if b then ctx.rt.memory else set_header copied a.copy none) z in
            (ap (λ m. m.header q) e, ap (λ m. m.slot q) e)
        | inr z ↦
            let e =
              refused_memory h
              ∙ ap (λ b. if b then ctx.rt.memory else set_header copied a.copy none) z in
            let c = freed_same (ground (arith, z)) in
            (ap (λ m. m.header q) e ∙ c.0, ap (λ m. m.slot q) e ∙ c.1)
      ]
    ]

  -- What a copy holds.
  pub made_copy :
      refused a ctx obj ≡ false
      → ((copy_out a ctx obj).1.rt.memory.header a.copy ≡ ctx.rt.memory.header obj)
        × ((o : ℕ)
            → o < size_at ctx.rt.memory obj
            → (copy_out a ctx obj).1.rt.memory.slot (a.copy + o) ≡ ctx.rt.memory.slot (obj + o))
  made_copy h =
      let e = made_memory h in
      (
        ap (λ m. m.header a.copy) e ∙ self a.copy,
        λ o lt.
            ap (λ m. m.slot (a.copy + o)) e
            ∙ inside o lt
            ∙ ap (λ (n : ℕ). ctx.rt.memory.slot (obj + n)) {x = a.copy + o - a.copy} {y = o}
                (omega arith),
      )
    where
      self :
          (p : Ptr)
          → (copy_object ctx.rt.memory obj p (size_at ctx.rt.memory obj)).header p
            ≡ ctx.rt.memory.header obj
      self p = unfold copy_object in ground arith

      inside :
          (o : ℕ)
          → o < size_at ctx.rt.memory obj
          → copied.slot (a.copy + o) ≡ ctx.rt.memory.slot (obj + (a.copy + o - a.copy))
      inside o lt = unfold copy_object in ground arith

-- The addresses that the invariant speaks of are outside the block of a later request.
module _ (sc : Scene) (k : IsScene sc) where
  pub young_apart :
      (n : ℕ) (p : Ptr)
      → young sc p ≡ true
      → copy sc n ≢ null
      → (p < copy sc n) ⊎ (copy sc n + sc.block ≤ p)
  young_apart n p y ne = ground (arith, k.elsewhere n ne)

  pub placed_apart :
      (n i o : ℕ)
      → i < n
      → o < sc.block
      → copy sc i ≢ null
      → copy sc n ≢ null
      → (copy sc i + o < copy sc n) ⊎ (copy sc n + sc.block ≤ copy sc i + o)
  placed_apart n i o lt small ni nn = ground (arith, k.apart n i (omega arith) nn ni)
