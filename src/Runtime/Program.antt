-- ===== src/Runtime/Program.antt =====
-- The calls that a program makes of src/core/runtime.c once a runtime has been created, for any
-- algorithm.
use xgc.Object.{Header, Descriptor}
use xgc.Runtime.{Runtime, Vtable, Handle}
use xgc.Runtime.Allocation.{alloc_typed}
use xgc.Runtime.Collection.{collect_minor, collect_major, collect_full}
use xgc.Runtime.Handles.{handle_acquire, handle_release}
use xgc.Runtime.References.{store_ref}
use xgc.Prelude.{
  ℕ, ◌≡◌, ◌⊎◌, Bool, true, false, not, ◌&&◌, Option, none, some, Ptr, null, is_none, ◌==◌,
}

-- An object that may be handed out: it has a type and a size.
abbrev pub is_object : Option Header → Bool
is_object none = false
is_object (some h) = not (is_none h.desc) && not (h.size == 0)

-- One call, with what the allocator answers in an `a : A`. `Admits a rt` says which answers the
-- allocator may give for an object of a size. A handle is acquired on an object.
pub data Call {S A : Type 0} (vtable : A → Vtable S) (Admits : A → Runtime S → ℕ → Type 0)
    (rt : Runtime S) : Runtime S → Type 0 where
  allocate :
      (a : A) (raw : Ptr) (desc : Option Descriptor) (size alloc_flags : ℕ) (obj : Ptr)
      (rt' : Runtime S)
      → Admits a rt size
      → (raw ≡ null) ⊎ (rt.memory.header raw ≡ none)
      → alloc_typed (vtable a) raw rt desc size alloc_flags ≡ some (obj, rt')
      → Call vtable Admits rt rt'
  store :
      (a : A) (owner slot new_value : Ptr)
      → Call vtable Admits rt (store_ref (vtable a) rt owner slot new_value)
  acquire :
      (a : A) (node obj : Ptr) (flags : ℕ)
      → (obj ≡ null) ⊎ (is_object (rt.memory.header obj) ≡ true)
      → Call vtable Admits rt (handle_acquire (vtable a) node rt obj flags).1
  release :
      (a : A) (handle : Option Handle) → Call vtable Admits rt (handle_release (vtable a) rt handle)
  minor :
      (a : A) (rt' : Runtime S) → collect_minor (vtable a) rt ≡ some rt' → Call vtable Admits rt rt'
  major :
      (a : A) (rt' : Runtime S) → collect_major (vtable a) rt ≡ some rt' → Call vtable Admits rt rt'
  full :
      (a : A) (rt' : Runtime S) → collect_full (vtable a) rt ≡ some rt' → Call vtable Admits rt rt'

-- Calls in a row.
pub data Calls {S A : Type 0} (vtable : A → Vtable S) (Admits : A → Runtime S → ℕ → Type 0)
    (rt : Runtime S) : Runtime S → Type 0 where
  stop : Calls vtable Admits rt rt
  next :
      {rt' rt'' : Runtime S}
      → Calls vtable Admits rt rt'
      → Call vtable Admits rt' rt''
      → Calls vtable Admits rt rt''
