-- ===== src/Worklist.antt =====
-- The explicit work stack of src/core/worklist.c and its checker in src/core/invariants.c. `buffer`
-- lists the `capacity` elements behind `data` (none behind NULL); `top` and `capacity` are never
-- negative, so a C `int` is a number here. An element that `realloc` adds is written before it is
-- read; it is 0 until then.
pub mod Stack
mod Tests
use xgc.Prelude
use xgc.Prelude.{
  ℕ, ◌+◌, ◌-◌, ◌*◌, Bool, true, false, not, ◌&&◌, ◌||◌, List, [], ◌++◌, ltb, leb, ◌==◌,
  if◌then◌else◌, Ptr, null, get_or, replicate, length,
}

pub record Worklist : Type 0 where
  pub buffer : List Ptr
  pub is_allocated : Bool
  pub top : ℕ
  pub capacity : ℕ

-- `wl->data[wl->top++] = obj`
abbrev pub put_top : Worklist → Ptr → Worklist
put_top wl obj = record wl { buffer = Prelude.set wl.buffer wl.top obj; top = wl.top + 1 }

abbrev pub new_capacity : Worklist → ℕ
new_capacity wl = if ltb 0 wl.capacity then wl.capacity * 2 else 16

abbrev pub reallocated : Worklist → Worklist
reallocated wl = record wl {
  buffer = wl.buffer ++ replicate (new_capacity wl - length wl.buffer) 0;
  is_allocated = true;
  capacity = new_capacity wl;
}

-- `granted` says whether `realloc` returns a buffer, if it is called.
unfoldable pub push : Bool → Worklist → Ptr → Worklist
push granted wl obj =
    if obj == null
    then wl
    else if ltb wl.top wl.capacity
    then put_top wl obj
    else if not granted
    then wl
    else put_top (reallocated wl) obj

unfoldable pub pop : Worklist → Ptr × Worklist
pop wl =
    if leb wl.top 0
    then (null, wl)
    else (get_or wl.buffer (wl.top - 1) 0, record wl { top = wl.top - 1 })

unfoldable pub check_invariants : Worklist → Bool
check_invariants wl =
    if ltb wl.capacity wl.top
    then false
    else if wl.capacity == 0
    then (if wl.is_allocated || not (wl.top == 0) then false else true)
    else (if not wl.is_allocated then false else true)
