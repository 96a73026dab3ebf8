-- ===== src/Worklist/Stack.antt =====
-- The work stack refines a list: `gc_worklist_push` puts in front, `gc_worklist_pop` takes from
-- there, and a push whose memory is refused is lost (src/core/worklist.c).
use native.Mathlib.Numerals.{add-one}
use mathlib.Core.Path.{ap₂}
use xgc.Prelude.{
  ℕ, zero, suc, ◌+◌, ◌-◌, ◌≤◌, ◌<◌, ◌≡◌, ◌≢◌, refl, ◌∙◌, ap, Bool, true, false, not, ◌&&◌, ◌||◌,
  List, [], ◌∷◌, arith, ltb, leb, ◌==◌, if◌then◌else◌, Ptr, null, get_or, replicate, length,
  length-set, get_or-set, length-append, length-replicate, get_or-append, inl, inr, Bool-cases,
  zero_or_pos,
}
use xgc.Worklist.{Worklist, put_top, reallocated, new_capacity, push, pop, check_invariants}

-- The elements below `n`, the last one first.
unfoldable pub stack_of : List Ptr → ℕ → List Ptr
stack_of buffer zero = []
stack_of buffer (suc n) = get_or buffer n 0 ∷ stack_of buffer n

abbrev pub stack : Worklist → List Ptr
stack wl = stack_of wl.buffer wl.top

pub record IsValid (wl : Worklist) : Type 0 where
  pub room : wl.top ≤ wl.capacity
  pub buffer : length wl.buffer ≡ wl.capacity
  pub pointer : wl.is_allocated ≡ not (wl.capacity == 0)
  pub filled : (i : ℕ) → i < wl.top → get_or wl.buffer i 0 ≢ null

pub stack_of_ext :
    (xs ys : List Ptr) (n : ℕ)
    → ((i : ℕ) → i < n → get_or xs i 0 ≡ get_or ys i 0)
    → stack_of xs n ≡ stack_of ys n
unfolding stack_of
stack_of_ext xs ys zero h = refl
stack_of_ext xs ys (suc n) h =
    ground (arith, h n (omega arith), stack_of_ext xs ys n (λ i lt. h i (omega arith)))

stack_of_step : (xs : List Ptr) (n : ℕ) → stack_of xs (n + 1) ≡ get_or xs n 0 ∷ stack_of xs n
unfolding stack_of
stack_of_step xs n = rw add-one

module _ (wl : Worklist) (v : IsValid wl) where
  pub reallocated-IsValid : IsValid (reallocated wl)
  reallocated-IsValid = record {
    room = ground (arith, v.room);
    buffer = ground (
      arith,
      length-append wl.buffer (replicate (new_capacity wl - length wl.buffer) 0),
      length-replicate {A = ℕ} (new_capacity wl - length wl.buffer) 0,
      v.buffer,
    );
    pointer = ground arith;
    filled = λ i h.
        rw
          (get_or-append wl.buffer (replicate (new_capacity wl - length wl.buffer) 0) i 0
            (omega (arith, v.room, v.buffer)))
          (v.filled i h);
  }

  pub stack-reallocated : stack (reallocated wl) ≡ stack wl
  stack-reallocated = stack_of_ext (reallocated wl).buffer wl.buffer wl.top λ i h.
      get_or-append wl.buffer (replicate (new_capacity wl - length wl.buffer) 0) i 0
        (omega (arith, v.room, v.buffer))

  module _ (obj : Ptr) (ne : obj ≢ null) (room : wl.top < wl.capacity) where
    read_put :
        (i : ℕ)
        → get_or (put_top wl obj).buffer i 0 ≡ (if wl.top == i then obj else get_or wl.buffer i 0)
    read_put i = get_or-set wl.buffer wl.top i obj 0 (omega (arith, v.buffer))

    pub put_top-IsValid : IsValid (put_top wl obj)
    put_top-IsValid = record {
      room = omega arith;
      buffer = length-set wl.buffer wl.top obj ∙ v.buffer;
      pointer = v.pointer;
      filled = λ i h. ground (arith, read_put i, v.filled i);
    }

    pub stack-put_top : stack (put_top wl obj) ≡ obj ∷ stack wl
    stack-put_top =
        stack_of_step (put_top wl obj).buffer wl.top
        ∙ ap₂ ◌∷◌ (read_put wl.top ∙ self wl.top)
            (stack_of_ext (put_top wl obj).buffer wl.buffer wl.top λ i h. read_put i ∙ other i h)
      where
        self : (n : ℕ) → (if n == n then obj else get_or wl.buffer n 0) ≡ obj
        self n = ground arith

        other :
            (i : ℕ)
            → i < wl.top
            → (if wl.top == i then obj else get_or wl.buffer i 0) ≡ get_or wl.buffer i 0
        other i h = ground arith

-- What a push leaves on the stack: the object in front, unless it is NULL or the array is full and
-- cannot grow.
unfoldable pub pushed : Bool → Worklist → Ptr → List Ptr
pushed granted wl obj =
    if obj == null || (leb wl.capacity wl.top && not granted) then stack wl else obj ∷ stack wl

module _ (granted : Bool) (wl : Worklist) (obj : Ptr) (v : IsValid wl) where
  abbrev Pushed : Type 0
  Pushed = IsValid (push granted wl obj) × (stack (push granted wl obj) ≡ pushed granted wl obj)

  push_unchanged : (obj == null || (leb wl.capacity wl.top && not granted)) ≡ true → Pushed
  unfolding pushed
  push_unchanged h = rw (same, h) (v, refl)
    where
      same : push granted wl obj ≡ wl
      same = unfold push in ground arith

  push_room : obj ≢ null → wl.top < wl.capacity → Pushed
  unfolding pushed
  push_room ne room =
      rw (same, test) (put_top-IsValid wl v obj ne room, stack-put_top wl v obj ne room)
    where
      same : push granted wl obj ≡ put_top wl obj
      same = unfold push in ground arith

      test : (obj == null || (leb wl.capacity wl.top && not granted)) ≡ false
      test = ground arith

  push_grown : obj ≢ null → wl.capacity ≤ wl.top → granted ≡ true → Pushed
  unfolding pushed
  push_grown ne full g =
      let room : wl.top < new_capacity wl = ground (arith, v.room) in
      let v' = reallocated-IsValid wl v in
      rw (same, test)
        (
          put_top-IsValid (reallocated wl) v' obj ne room,
          stack-put_top (reallocated wl) v' obj ne room
              ∙ ap (λ s. obj ∷ s) (stack-reallocated wl v),
        )
    where
      same : push granted wl obj ≡ put_top (reallocated wl) obj
      same = unfold push in ground arith

      test : (obj == null || (leb wl.capacity wl.top && not granted)) ≡ false
      test = ground arith

  -- A push keeps a valid worklist valid and puts the object on top, unless it is NULL or the array
  -- is full and cannot grow: then the stack is as before.
  pub push_lem :
      IsValid (push granted wl obj) × (stack (push granted wl obj) ≡ pushed granted wl obj)
  push_lem = elim (Bool-cases (obj == null || (leb wl.capacity wl.top && not granted))) [
    | inl h ↦ push_unchanged h
    | inr h ↦ elim (Bool-cases (ltb wl.top wl.capacity)) [
      | inl room ↦ push_room (ground arith) (ground arith)
      | inr full ↦ push_grown (ground arith) (ground arith) (ground arith)
    ]
  ]

module _ (wl : Worklist) (v : IsValid wl) where
  pop_empty : wl.top ≡ 0 → pop wl ≡ (null, wl)
  unfolding pop
  pop_empty e = ground arith

  pop_some : 0 < wl.top → pop wl ≡ (get_or wl.buffer (wl.top - 1) 0, record wl { top = wl.top - 1 })
  unfolding pop
  pop_some h = ground arith

  stack_empty : wl.top ≡ 0 → stack wl ≡ []
  unfolding stack_of
  stack_empty e = ap (stack_of wl.buffer) e

  stack_some :
      0 < wl.top → stack wl ≡ get_or wl.buffer (wl.top - 1) 0 ∷ stack_of wl.buffer (wl.top - 1)
  stack_some h =
      ap (stack_of wl.buffer) {x = wl.top} {y = wl.top - 1 + 1} (omega arith)
      ∙ stack_of_step wl.buffer (wl.top - 1)

  -- A pop keeps a valid worklist valid; it takes the top object off, and answers NULL exactly on
  -- an empty stack.
  pub pop_lem :
      IsValid (pop wl).1
      × (stack wl ≡ (if (pop wl).0 == null then [] else (pop wl).0 ∷ stack (pop wl).1))
  pop_lem = elim (zero_or_pos wl.top) [
    | inl e ↦ rw (pop_empty e) (v, stack_empty e)
    | inr h ↦ rw (pop_some h) (
      record {
        room = omega (arith, v.room);
        buffer = v.buffer;
        pointer = v.pointer;
        filled = λ i lt. v.filled i (omega arith);
      },
      stack_some h ∙ nonnull (v.filled (wl.top - 1) (omega arith)),
    )
  ]
    where
      nonnull : {x : Ptr} {xs : List Ptr} → x ≢ null → x ∷ xs ≡ (if x == null then [] else x ∷ xs)
      nonnull ne = ground arith

  pub pop-null : ((pop wl).0 == null) ≡ true → (pop wl).1 ≡ wl
  unfolding pop
  pop-null h = ground (arith, v.filled (wl.top - 1))

-- `gc_worklist_check_invariants` accepts a valid worklist.
pub IsValid-check : (wl : Worklist) → IsValid wl → check_invariants wl ≡ true
unfolding check_invariants
IsValid-check wl v = ground (arith, v.room, v.pointer)
