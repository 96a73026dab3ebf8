-- ===== src/GenCopy/Ending.antt =====
-- Each promotion of src/algo/gen_copy_ms/young_copy.c uses up an address of the nursery, so the work of
-- a minor collection is bounded by the nursery's capacity.
use xgc.CardTable.{CardTable}
use xgc.CardTable.Snapshots
use xgc.CardTable.Snapshots.{DirtyCardSnapshot, visit_each, visit_dirty}
use xgc.GenCopy.{
  Forward, Answers, MinorCtx, in_nursery, find_forward, copy_object, copy_out, promote,
  evacuate_slot, evacuate_slots, size_at,
}
use xgc.GenCopy.Adding.{add_old_node_same}
use xgc.GenCopy.Forwarding.{added, refused}
use xgc.Object.{set_header, set_slot}
use xgc.Worklist
use xgc.Worklist.{Worklist}
use xgc.Prelude.{
  ℕ, zero, suc, ◌+◌, ◌≤◌, ◌≡◌, ◌≢◌, refl, sym, ap, ◌∙◌, Bool, true, false, not, ◌&&◌, ◌||◌, none,
  List, [], ◌∷◌, ltb, leb, ◌==◌, if◌then◌else◌, Ptr, null, arith, is_none, Bool-cases, Option-cases,
  inl, inr,
}

-- The addresses from `base` on that have not been promoted.
unfoldable pub free_count : List Forward → Ptr → ℕ → ℕ
free_count fs base zero = 0
free_count fs base (suc n) =
    (if is_none (find_forward fs (base + n)) then 1 else 0) + free_count fs base n

pub free_count-le : (fs : List Forward) (base : Ptr) (n : ℕ) → free_count fs base n ≤ n
unfolding free_count
free_count-le fs base zero = omega arith
free_count-le fs base (suc n) = ground (arith, free_count-le fs base n)

pub free_count_used :
    (f : Forward) (fs : List Forward) (base : Ptr) (n : ℕ)
    → find_forward fs f.from ≡ none
    → free_count (f ∷ fs) base n + (if leb base f.from && ltb f.from (base + n) then 1 else 0)
      ≡ free_count fs base n
unfolding free_count find_forward
free_count_used f fs base zero e = ground arith
free_count_used f fs base (suc n) e = ground (arith, free_count_used f fs base n e, same)
  where
    same : f.from ≡ base + n → is_none (find_forward fs (base + n)) ≡ true
    same h = ap is_none (ap (find_forward fs) (sym h) ∙ e)

abbrev pub work : MinorCtx → ℕ
work ctx =
    ctx.wl.top + free_count ctx.state.forwarded ctx.state.nursery_space ctx.state.nursery_capacity

-- From `c` to `d` the nursery is where it was, the work has not grown, and headers have changed only
-- in the allocator's blocks.
pub record Bounded (answers : ℕ → Answers) (c d : MinorCtx) : Type 0 where
  pub space : d.state.nursery_space ≡ c.state.nursery_space
  pub capacity : d.state.nursery_capacity ≡ c.state.nursery_capacity
  pub less : work d ≤ work c
  pub header :
      (q : Ptr) → ((n : ℕ) → (answers n).copy ≢ q) → d.rt.memory.header q ≡ c.rt.memory.header q

pub Bounded-refl : (answers : ℕ → Answers) (c : MinorCtx) → Bounded answers c c
Bounded-refl answers c = record {
  space = refl;
  capacity = refl;
  less = omega arith;
  header = λ q apart. refl;
}

pub Bounded-trans :
    (answers : ℕ → Answers) (c d e : MinorCtx)
    → Bounded answers c d
    → Bounded answers d e
    → Bounded answers c e
Bounded-trans answers c d e h k = record {
  space = k.space ∙ h.space;
  capacity = k.capacity ∙ h.capacity;
  less = omega (arith, h.less, k.less);
  header = λ q apart. k.header q apart ∙ h.header q apart;
}

top-push :
    (granted : Bool) (wl : Worklist) (obj : Ptr) → (Worklist.push granted wl obj).top ≤ wl.top + 1
unfolding Worklist.push
top-push granted wl obj = ground arith

module _ (a : Answers) (ctx : MinorCtx) (obj : Ptr) where
  pub refused_same :
      refused a ctx obj ≡ true
      → ((copy_out a ctx obj).1.state ≡ ctx.state) × ((copy_out a ctx obj).1.wl ≡ ctx.wl)
  unfolding copy_out refused
  refused_same h = (ground (arith, h), ground (arith, h))

  pub made_same :
      refused a ctx obj ≡ false
      → ((copy_out a ctx obj).1.state ≡ record ((added a ctx obj).2) {
        forwarded = record { from = obj; to = a.copy } ∷ (added a ctx obj).2.forwarded;
      })
        × ((copy_out a ctx obj).1.wl ≡ Worklist.push a.push_granted ctx.wl a.copy)
  unfolding copy_out refused
  made_same h = (ground (arith, h), ground (arith, h))

  copy_out_header :
      (q : Ptr) → a.copy ≢ q → (copy_out a ctx obj).1.rt.memory.header q ≡ ctx.rt.memory.header q
  unfolding copy_out copy_object set_header
  copy_out_header q apart = ground arith

module _ (answers : ℕ → Answers) (n : ℕ) (ctx : MinorCtx) (obj : Ptr) where
  abbrev a : Answers
  a = answers n

  copy_out-Bounded :
      in_nursery ctx.state obj ≡ true
      → find_forward ctx.state.forwarded obj ≡ none
      → Bounded answers ctx (copy_out a ctx obj).1
  copy_out-Bounded inside fresh = elim (Bool-cases (refused a ctx obj)) [
    | inl h ↦
        let (state, wl) = refused_same a ctx obj h in
        record {
          space = ap (λ s. s.nursery_space) state;
          capacity = ap (λ s. s.nursery_capacity) state;
          less = rw (state, wl) (omega arith);
          header = λ q apart. copy_out_header a ctx obj q (apart n);
        }
    | inr h ↦
        let (state, wl) = made_same a ctx obj h in
        let (space, capacity, forwarded) =
          add_old_node_same a
            (record (ctx.rt) {
              memory = copy_object ctx.rt.memory obj a.copy (size_at ctx.rt.memory obj);
            })
            ctx.state a.copy in
        record {
          space = ap (λ s. s.nursery_space) state ∙ space;
          capacity = ap (λ s. s.nursery_capacity) state ∙ capacity;
          less =
              rw (state, wl, space, capacity, forwarded)
                (omega (
                  arith,
                  top-push a.push_granted ctx.wl a.copy,
                  free_count_used (record { from = obj; to = a.copy }) ctx.state.forwarded
                      ctx.state.nursery_space ctx.state.nursery_capacity fresh,
                  one,
                ));
          header = λ q apart. copy_out_header a ctx obj q (apart n);
        }
  ]
    where
      one :
          ◌≡◌ {A = ℕ}
            (if leb ctx.state.nursery_space obj
                && ltb obj (ctx.state.nursery_space + ctx.state.nursery_capacity)
              then 1
              else 0)
            1
      one = unfold in_nursery in ground (arith, inside)

module _ (answers : ℕ → Answers) where
  pub promote-Bounded :
      (ctx : MinorCtx) (obj : Ptr) → Bounded answers ctx (promote answers ctx obj).1
  unfolding promote
  promote-Bounded ctx obj = elim (Bool-cases (obj == null || not (in_nursery ctx.state obj))) [
    | inl h ↦ rw (h, promote) (Bounded-refl answers ctx)
    | inr h ↦ elim (Option-cases (find_forward ctx.state.forwarded obj)) [
      | inr (f, e) ↦ rw (h, e, promote) (Bounded-refl answers ctx)
      | inl e ↦
          rw (h, e, promote) (copy_out-Bounded answers ctx.requests ctx obj (ground (arith, h)) e)
    ]
  ]

  evacuate_slot-Bounded :
      (ctx : MinorCtx) (slot : Ptr) → Bounded answers ctx (evacuate_slot answers ctx slot)
  unfolding evacuate_slot
  evacuate_slot-Bounded ctx slot =
      elim (Bool-cases (slot == null || ctx.rt.memory.slot slot == null)) [
        | inl h ↦ rw (h, evacuate_slot) (Bounded-refl answers ctx)
        | inr h ↦
            let p = promote-Bounded ctx (ctx.rt.memory.slot slot) in
            rw (h, evacuate_slot)
              (record {
                space = p.space;
                capacity = p.capacity;
                less = p.less;
                header = λ q apart. unfold set_slot in p.header q apart;
              })
      ]

  pub evacuate_slots-Bounded :
      (ctx : MinorCtx) (slots : List Ptr) → Bounded answers ctx (evacuate_slots answers ctx slots)
  unfolding evacuate_slots
  evacuate_slots-Bounded ctx [] = Bounded-refl answers ctx
  evacuate_slots-Bounded ctx (s ∷ slots) =
      Bounded-trans answers ctx (evacuate_slot answers ctx s) _ (evacuate_slot-Bounded ctx s)
        (evacuate_slots-Bounded (evacuate_slot answers ctx s) slots)

-- What each visit keeps, the visit of the dirty cards keeps.
visit_each_keeps :
    {S : Type 0} (P : S → Type 0) (f : Ptr → ℕ → S → S) (ds : List DirtyCardSnapshot) (s : S)
    → ((q : Ptr) (j : ℕ) (x : S) → P x → P (f q j x))
    → P s
    → P (visit_each f ds s)
unfolding visit_each
visit_each_keeps P f [] s k p = p
visit_each_keeps P f (d ∷ ds) s k p =
    visit_each_keeps P f ds (f d.owner d.card_index s) k (k d.owner d.card_index s p)

pub visit_dirty_keeps :
    {S : Type 0} (P : S → Type 0) (f : Ptr → ℕ → S → S) (granted : Bool) (t : CardTable) (s : S)
    → ((q : Ptr) (j : ℕ) (x : S) → P x → P (f q j x))
    → P s
    → P (visit_dirty granted t f s)
unfolding visit_dirty
visit_dirty_keeps P f granted t s k p =
    elim (Bool-cases (Snapshots.dirty_count t.entries == 0 || not granted)) [
      | inl h ↦ rw (h, visit_dirty) p
      | inr h ↦ rw (h, visit_dirty) (visit_each_keeps P f (Snapshots.snapshot t.entries) s k p)
    ]
