-- ===== src/Runtime/Allocation.antt =====
-- `gc_alloc_typed` (src/core/runtime.c). `none` means that the algorithm ran out of fuel.
use xgc.Object.{Header, Descriptor, header_size, alloc_pinned, calloc_object}
use xgc.Runtime.{Runtime, Vtable}
use xgc.Runtime.Flags.{has_flag, with_pin, update_header}
use mathlib.Core.Option
use xgc.Prelude.{ℕ, ◌%◌, ◌^◌, not, Option, none, some, ltb, ◌==◌, if◌then◌else◌, Ptr, null, is_none}

-- What the function writes into the header of the new object.
unfoldable pub filled : Descriptor → ℕ → ℕ → Header → Header
filled desc size alloc_flags obj =
    let typed = record obj {
      desc = if is_none obj.desc then some desc else obj.desc;
      size = if obj.size == 0 then size % 2 ^ 32 else obj.size;
      kind = if obj.kind == 0 then desc.kind else obj.kind;
    } in
    if has_flag alloc_flags alloc_pinned then with_pin typed else typed

module _ {S : Type 0} where
  -- `raw` is what `calloc` answers if the algorithm has no object.
  abbrev pub with_fallback : Ptr → ℕ → Ptr × Runtime S → Ptr × Runtime S
  with_fallback raw size (obj, rt) =
      if not (obj == null)
      then (obj, rt)
      else if raw == null
      then (null, rt)
      else (raw, record rt { memory = calloc_object rt.memory raw size })

  abbrev pub from_algorithm : Vtable S → Runtime S → Descriptor → ℕ → ℕ → Option (Ptr × Runtime S)
  from_algorithm algo rt desc size alloc_flags = elim algo.alloc [
    | none ↦ some (null, rt)
    | some alloc ↦ alloc rt (some desc) size alloc_flags
  ]

  abbrev pub completed : Vtable S → Descriptor → ℕ → ℕ → Ptr × Runtime S → Ptr × Runtime S
  completed algo desc size alloc_flags (obj, rt) =
      let rt' = record rt { memory = update_header rt.memory obj (filled desc size alloc_flags) } in
      if obj == null
      then (null, rt)
      else elim algo.post_alloc [ none ↦ (obj, rt') | some post_alloc ↦ (obj, post_alloc rt' obj) ]

  unfoldable pub alloc_typed :
      Vtable S → Ptr → Runtime S → Option Descriptor → ℕ → ℕ → Option (Ptr × Runtime S)
  alloc_typed algo raw rt none size alloc_flags = some (null, rt)
  alloc_typed algo raw rt (some desc) size alloc_flags =
      if ltb size header_size
      then some (null, rt)
      else Option.map
          (λ answer. completed algo desc size alloc_flags (with_fallback raw size answer))
          (from_algorithm algo rt desc size alloc_flags)
