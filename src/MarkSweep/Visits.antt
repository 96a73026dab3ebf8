-- ===== src/MarkSweep/Visits.antt =====
-- What marking one object and a list of slots does to the marks and to the work stack
-- (src/algo/marksweep/ms.c), while the stack may grow.
use xgc.MarkSweep.{
  MarkCtx, set_marked, push_object, mark_object, mark_slot, mark_slots, mark_handle_roots,
}
use xgc.MarkSweep.Nodes.{
  known, marked, unmarked_count, Distinct, known-null, known-set_marked, marked-set_marked,
  unmarked_count-set_marked, Distinct-set_marked, marked-known,
}
use xgc.Object.{Memory}
use xgc.Runtime.{Handle}
use xgc.Worklist
use xgc.Worklist.Stack.{IsValid, stack, push_lem, pushed}
use xgc.Prelude.{
  ℕ, ◌+◌, ◌≡◌, ◌≢◌, refl, ◌∙◌, ap, Bool, true, false, not, ◌&&◌, ◌||◌, ◌⊎◌, List, [], ◌∷◌, arith,
  ◌==◌, Ptr, null, length, inl, inr, Bool-cases,
}

-- Is the object on the list?
abbrev pub elem : Ptr → List Ptr → Bool
elem q [] = false
elem q (p ∷ ps) = p == q || elem q ps

-- From `c` to `c'` exactly the owned objects of `T` have been marked; those that were not marked
-- before are on the stack.
pub record Advanced (T : Ptr → Bool) (c c' : MarkCtx) : Type 0 where
  pub owned : (q : Ptr) → known c'.objects q ≡ known c.objects q
  pub marks : (q : Ptr) → marked c'.objects q ≡ ((T q && known c.objects q) || marked c.objects q)
  pub grey :
      (q : Ptr)
      → elem q (stack c'.wl)
        ≡ ((T q && (known c.objects q && not (marked c.objects q))) || elem q (stack c.wl))
  pub work :
      unmarked_count c'.objects + length (stack c'.wl)
      ≡ unmarked_count c.objects + length (stack c.wl)
  pub valid : IsValid c'.wl
  pub distinct : Distinct c'.objects

pub unadvanced :
    (T : Ptr → Bool) (c : MarkCtx)
    → IsValid c.wl
    → Distinct c.objects
    → ((q : Ptr) → (T q && (known c.objects q && not (marked c.objects q))) ≡ false)
    → ((q : Ptr) → (T q && known c.objects q) ≡ (T q && marked c.objects q))
    → Advanced T c c
unadvanced T c v d h k = record {
  owned = λ q. refl;
  marks = λ q. ground (arith, k q);
  grey = λ q. ground (arith, h q);
  work = refl;
  valid = v;
  distinct = d;
}

pub then_advance :
    (T U : Ptr → Bool) (a b c : MarkCtx)
    → Advanced T a b
    → Advanced U b c
    → Advanced (λ q. T q || U q) a c
then_advance T U a b c m n = record {
  owned = λ q. n.owned q ∙ m.owned q;
  marks = λ q. ground (arith, m.owned q, m.marks q, n.marks q);
  grey = λ q. ground (arith, m.owned q, m.marks q, m.grey q, n.grey q);
  work = n.work ∙ m.work;
  valid = n.valid;
  distinct = n.distinct;
}

pub Advanced-ext :
    (T U : Ptr → Bool) (c c' : MarkCtx)
    → ((q : Ptr) → T q ≡ U q)
    → Advanced T c c'
    → Advanced U c c'
Advanced-ext T U c c' h a = record {
  owned = a.owned;
  marks = λ q. ground (arith, a.marks q, h q);
  grey = λ q. ground (arith, a.grey q, h q);
  work = a.work;
  valid = a.valid;
  distinct = a.distinct;
}

-- The objects that a list of slots refers to.
abbrev pub referred : Memory → List Ptr → Ptr → Bool
referred m [] q = false
referred m (s ∷ ss) q = (not (s == null) && m.slot s == q) || referred m ss q

abbrev pub targeted : List Handle → Ptr → Bool
targeted [] q = false
targeted (h ∷ hs) q = h.target == q || targeted hs q

module _ (grants : ℕ → Bool) (granted : (n : ℕ) → grants n ≡ true) where
  module _ (c : MarkCtx) (v : IsValid c.wl) (d : Distinct c.objects) (obj : Ptr) where
    same_known : (q : Ptr) → obj ≡ q → known c.objects obj ≡ known c.objects q
    same_known q h = ap (known c.objects) h

    same_marked : (q : Ptr) → obj ≡ q → marked c.objects obj ≡ marked c.objects q
    same_marked q h = ap (marked c.objects) h

    -- An object that is not the collector's, and one that is marked, change nothing.
    mark_object_skip :
        (known c.objects obj ≡ false) ⊎ (marked c.objects obj ≡ true) → mark_object grants c obj ≡ c
    unfolding mark_object known marked
    mark_object_skip h = ground arith

    skip-Advanced :
        (known c.objects obj ≡ false) ⊎ (marked c.objects obj ≡ true) → Advanced (λ q. obj == q) c c
    skip-Advanced h =
        unadvanced (λ q. obj == q) c v d (λ q. ground (arith, same_known q, same_marked q))
          (λ q. ground (arith, same_known q, same_marked q, marked-known c.objects obj))

    module _ (own : known c.objects obj ≡ true) (white : marked c.objects obj ≡ false) where
      nonnull : obj ≢ null
      nonnull z = cc (known-null c.objects d)

      mark_object_push :
          mark_object grants c obj
          ≡ push_object grants (record c { objects = set_marked c.objects obj }) obj
      unfolding mark_object known marked
      mark_object_push = ground (arith, nonnull)

      push-stack :
          IsValid (Worklist.push (grants c.requests) c.wl obj)
          × (stack (Worklist.push (grants c.requests) c.wl obj) ≡ obj ∷ stack c.wl)
      unfolding pushed
      push-stack =
          let (valid, eq) = push_lem (grants c.requests) c.wl obj v in
          (valid, eq ∙ taken (granted c.requests))
        where
          taken : grants c.requests ≡ true → pushed (grants c.requests) c.wl obj ≡ obj ∷ stack c.wl
          taken h = ground (arith, nonnull)

      push-Advanced : Advanced (λ q. obj == q) c (mark_object grants c obj)
      unfolding push_object
      push-Advanced = rw mark_object_push (record {
        owned = λ q. known-set_marked obj c.objects q;
        marks = λ q. marked-set_marked obj c.objects q;
        grey = λ q. ap (elem q) push-stack.1 ∙ ground (arith, same_known q, same_marked q);
        work =
            omega
              (arith, unmarked_count-set_marked obj c.objects own white, ap length push-stack.1);
        valid = push-stack.0;
        distinct = Distinct-set_marked obj c.objects d;
      })

    pub mark_object-Advanced : Advanced (λ q. obj == q) c (mark_object grants c obj)
    mark_object-Advanced = elim (Bool-cases (known c.objects obj)) [
      | inr k ↦ rw (mark_object_skip (inl k)) (skip-Advanced (inl k))
      | inl k ↦ elim (Bool-cases (marked c.objects obj)) [
        | inl m ↦ rw (mark_object_skip (inr m)) (skip-Advanced (inr m))
        | inr m ↦ push-Advanced k m
      ]
    ]

  mark_slot-Advanced :
      (m : Memory) (c : MarkCtx) (s : Ptr)
      → IsValid c.wl
      → Distinct c.objects
      → Advanced (λ q. not (s == null) && m.slot s == q) c (mark_slot grants m c s)
  mark_slot-Advanced m c s v d = elim (Bool-cases (s == null)) [
    | inl z ↦ rw (null_slot z) (
        unadvanced (λ q. not (s == null) && m.slot s == q) c v d (λ q. ground arith)
          (λ q. ground arith))
    | inr z ↦ rw (some_slot z) (
        Advanced-ext (λ q. m.slot s == q) (λ q. not (s == null) && m.slot s == q) c
          (mark_object grants c (m.slot s)) (λ q. ground arith)
          (mark_object-Advanced c v d (m.slot s)))
  ]
    where
      null_slot : (s == null) ≡ true → mark_slot grants m c s ≡ c
      null_slot z = unfold mark_slot in rw z

      some_slot : (s == null) ≡ false → mark_slot grants m c s ≡ mark_object grants c (m.slot s)
      some_slot z = unfold mark_slot in rw z

  pub mark_slots-Advanced :
      (m : Memory) (c : MarkCtx) (ss : List Ptr)
      → IsValid c.wl
      → Distinct c.objects
      → Advanced (referred m ss) c (mark_slots grants m c ss)
  unfolding mark_slots
  mark_slots-Advanced m c [] v d = unadvanced (λ q. false) c v d (λ q. refl) (λ q. refl)
  mark_slots-Advanced m c (s ∷ ss) v d =
      let first = mark_slot-Advanced m c s v d in
      then_advance (λ q. not (s == null) && m.slot s == q) (referred m ss) c
        (mark_slot grants m c s) (mark_slots grants m (mark_slot grants m c s) ss) first
        (mark_slots-Advanced m (mark_slot grants m c s) ss first.valid first.distinct)

  pub mark_handle_roots-Advanced :
      (c : MarkCtx) (hs : List Handle)
      → IsValid c.wl
      → Distinct c.objects
      → Advanced (targeted hs) c (mark_handle_roots grants c hs)
  unfolding mark_handle_roots
  mark_handle_roots-Advanced c [] v d = unadvanced (λ q. false) c v d (λ q. refl) (λ q. refl)
  mark_handle_roots-Advanced c (h ∷ hs) v d =
      let first = mark_object-Advanced c v d h.target in
      then_advance (λ q. h.target == q) (targeted hs) c (mark_object grants c h.target)
        (mark_handle_roots grants (mark_object grants c h.target) hs) first
        (mark_handle_roots-Advanced (mark_object grants c h.target) hs first.valid first.distinct)
