-- ===== src/Object.antt =====
-- Object headers and type descriptors of include/xgc/gc_types.h, and the slot visitor of
-- src/core/descriptor.c. The VM's callbacks are parameters: `trace_slots` and `trace_slots_range`
-- are given by the addresses of the slots that they hand to the visitor, in order, and of
-- `finalize` it matters only whether it is there. The fields `name`, `reserved` and `trace_edges` of
-- a descriptor are read by no function of the library.
pub mod Tracing
mod Tests
use xgc.Prelude.{
  ℕ, ◌+◌, ◌&&◌, Bool, true, false, not, Option, none, some, List, [], ltb, leb, ◌==◌, if◌then◌else◌,
  Ptr, null,
}

pub record Descriptor : Type 0 where
  pub fixed_size : ℕ
  pub flags : ℕ
  pub kind : ℕ
  pub trace_slots : Option (Ptr → List Ptr)
  pub trace_slots_range : Option (Ptr → ℕ → ℕ → List Ptr)
  pub has_finalize : Bool

abbrev pub desc_flag_has_finalizer : ℕ
desc_flag_has_finalizer = 2

abbrev pub object_flag_pinned : ℕ
object_flag_pinned = 1

abbrev pub object_flag_finalizable : ℕ
object_flag_finalizable = 2

abbrev pub alloc_pinned : ℕ
alloc_pinned = 1

-- `sizeof(gc_header)` on a 64-bit target: a pointer, a `uint32_t` and two `uint16_t`.
abbrev pub header_size : ℕ
header_size = 16

-- `desc` is `none` for NULL.
pub record Header : Type 0 where
  pub desc : Option Descriptor
  pub size : ℕ
  pub flags : ℕ
  pub kind : ℕ

-- The memory that the collector shares with the VM: the header at an address, `none` where no live
-- object starts; the pointer stored at an address; and the objects finalized so far, the last first.
pub record Memory : Type 0 where
  pub header : Ptr → Option Header
  pub slot : Ptr → Ptr
  pub finalized : List Ptr

unfoldable pub set_header : Memory → Ptr → Option Header → Memory
set_header m p h = record m { header = λ q. if p == q then h else m.header q }

unfoldable pub set_slot : Memory → Ptr → Ptr → Memory
set_slot m p v = record m { slot = λ q. if p == q then v else m.slot q }

abbrev pub zeroed_header : Header
zeroed_header = record { desc = none; size = 0; flags = 0; kind = 0 }

-- `calloc(1, size)` at the address `p`: a zeroed header, and NULL in every slot of the object.
unfoldable pub calloc_object : Memory → Ptr → ℕ → Memory
calloc_object m p size = record m {
  header = λ q. if p == q then some zeroed_header else m.header q;
  slot = λ s. if leb p s && ltb s (p + size) then null else m.slot s;
}

-- The size that bounds a trace.
unfoldable pub traced_size : Header → Descriptor → ℕ
traced_size header desc = if not (header.size == 0) then header.size else desc.fixed_size

-- The slots that `gc_trace_object_slots_in_range` visits.
unfoldable pub trace_object_slots_in_range : Memory → Ptr → ℕ → ℕ → List Ptr
trace_object_slots_in_range m obj byte_begin byte_end =
    if obj == null then [] else elim (m.header obj) [
      | none ↦ []
      | some header ↦ elim header.desc [
        | none ↦ []
        | some desc ↦
            let object_size = traced_size header desc in
            let byte_end' = if ltb object_size byte_end then object_size else byte_end in
            if object_size == 0
            then []
            else if leb object_size byte_begin
            then []
            else if leb byte_end' byte_begin
            then []
            else elim desc.trace_slots_range [
              | some range ↦ range obj byte_begin byte_end'
              | none ↦ elim desc.trace_slots [ none ↦ [] | some trace ↦ trace obj ]
            ]
      ]
    ]

-- `obj->desc->trace_slots(obj, …)` where both are there: the slots of the whole object.
unfoldable pub object_slots : Memory → Ptr → List Ptr
object_slots m obj = elim (m.header obj) [
  | none ↦ []
  | some header ↦ elim header.desc [
    | none ↦ []
    | some desc ↦ elim desc.trace_slots [ none ↦ [] | some trace ↦ trace obj ]
  ]
]
