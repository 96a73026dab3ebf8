-- ===== src/Runtime/References.antt =====
-- `gc_store_ref` and `gc_load_ref` (src/core/runtime.c).
use xgc.Object.{set_slot}
use xgc.Runtime.{Runtime, Vtable}
use xgc.Prelude.{none, some, ◌==◌, if◌then◌else◌, Ptr, null}

module _ {S : Type 0} where
  unfoldable pub store_ref : Vtable S → Runtime S → Ptr → Ptr → Ptr → Runtime S
  store_ref algo rt owner slot new_value =
      let rt' = record rt { memory = set_slot rt.memory slot new_value } in
      if slot == null then rt else elim algo.write_barrier [
        | none ↦ rt'
        | some barrier ↦ barrier rt' owner slot (rt.memory.slot slot) new_value
      ]

  unfoldable pub load_ref : Vtable S → Runtime S → Ptr → Ptr × Runtime S
  load_ref algo rt slot = if slot == null then (null, rt) else elim algo.read_barrier [
    | none ↦ (rt.memory.slot slot, rt)
    | some barrier ↦ barrier rt slot
  ]
