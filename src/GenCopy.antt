-- ===== src/GenCopy.antt =====
-- The generational algorithm of src/algo/gen_copy_ms/young_copy.c: a nursery whose live objects a
-- minor collection copies out, and an old generation that is marked and swept. The node of an old
-- object has the fields of the mark-sweep algorithm's node. What the allocator answers to the n-th
-- promotion is `answers n`. The algorithm's state is held beside the runtime while a function works
-- on it. The runtime pointer is not NULL.
pub mod Minor
pub mod Walking
pub mod Full
pub mod Old
pub mod Algorithm
pub mod Table
pub mod Session
pub mod Barriers
pub mod Adding
pub mod Forwarding
pub mod Ending
pub mod MinorEnds
pub mod Bumping
pub mod Progress
pub mod Copying
mod Tests
use xgc.Barrier
use xgc.Barrier.{BarrierSet}
use xgc.Heap
use xgc.MarkSweep.{Node}
use xgc.MarkSweep.Algorithm.{record_alloc}
use xgc.Object.{Memory, Header, set_header, set_slot}
use xgc.Runtime.{Runtime, Handle}
use xgc.Worklist
use xgc.Worklist.{Worklist}
use xgc.Prelude.{
  ℕ, suc, ◌+◌, ◌-◌, ◌≡◌, Bool, true, false, not, ◌&&◌, ◌||◌, Option, none, some, List, [], ◌∷◌, ltb,
  leb, ◌==◌, if◌then◌else◌, Ptr, null,
}

pub record Forward : Type 0 where
  pub from : Ptr
  pub to : Ptr

pub record GenCopyState : Type 0 where
  pub nursery_space : Ptr
  pub nursery_capacity : ℕ
  pub nursery_used : ℕ
  pub old_objects : List Node
  pub forwarded : List Forward

-- What the allocator answers during one promotion: the copy's address, and whether the forwarding
-- node, the old node, the card table's array, the entry's bits and a larger work stack are granted.
pub record Answers : Type 0 where
  pub copy : Ptr
  pub forward_granted : Bool
  pub node_granted : Bool
  pub array_granted : Bool
  pub bits_granted : Bool
  pub push_granted : Bool

-- The context of a minor collection, with the number of promotions so far.
pub record MinorCtx : Type 0 where
  pub rt : Runtime GenCopyState
  pub state : GenCopyState
  pub wl : Worklist
  pub requests : ℕ

unfoldable pub in_nursery : GenCopyState → Ptr → Bool
in_nursery state obj =
    if obj == null || state.nursery_space == null
    then false
    else leb state.nursery_space obj && ltb obj (state.nursery_space + state.nursery_capacity)

unfoldable pub find_forward : List Forward → Ptr → Option Forward
find_forward [] obj = none
find_forward (f ∷ fs) obj = if f.from == obj then some f else find_forward fs obj

-- `obj->size`; 0 where no object starts.
abbrev pub size_at : Memory → Ptr → ℕ
size_at m obj = elim (m.header obj) [ none ↦ 0 | some h ↦ h.size ]

abbrev pub barriers_or : Option BarrierSet → BarrierSet → BarrierSet
barriers_or none old = old
barriers_or (some new) old = new

-- The node is put in front and taken off again if the registration fails.
unfoldable pub add_old_node :
    Answers → Runtime GenCopyState → GenCopyState → Ptr → Bool × Runtime GenCopyState × GenCopyState
add_old_node a rt state obj =
    let size = size_at rt.memory obj in
    let (registered, b) =
      Barrier.register_owner a.array_granted a.bits_granted (some rt.barriers) obj size in
    let rt' = record rt { barriers = barriers_or b rt.barriers } in
    if obj == null || not a.node_granted
    then (false, rt, state)
    else if not registered
    then (false, rt', state)
    else (
      true,
      record rt' { heap = Heap.record_old_alloc rt.heap size },
      record state { old_objects = record { obj = obj; marked = false } ∷ state.old_objects },
    )

-- `memcpy(copy, obj, size)`: the header and the slots of the object.
unfoldable pub copy_object : Memory → Ptr → Ptr → ℕ → Memory
copy_object m obj copy size = record m {
  header = λ q. if copy == q then m.header obj else m.header q;
  slot = λ s. if leb copy s && ltb s (copy + size) then m.slot (obj + (s - copy)) else m.slot s;
}

-- `free(copy)`
abbrev pub freed : Runtime GenCopyState → Ptr → Runtime GenCopyState
freed rt copy = record rt { memory = set_header rt.memory copy none }

-- A nursery object without a copy yet.
unfoldable pub copy_out : Answers → MinorCtx → Ptr → Ptr × MinorCtx
unfolding add_old_node
copy_out a ctx obj =
    let size = size_at ctx.rt.memory obj in
    let asked = record ctx { requests = ctx.requests + 1 } in
    let copied = record (ctx.rt) { memory = copy_object ctx.rt.memory obj a.copy size } in
    let (added, rt, state) = add_old_node a copied ctx.state a.copy in
    if a.copy == null
    then (obj, asked)
    else if not a.forward_granted
    then (obj, record asked { rt = freed copied a.copy })
    else if not added
    then (obj, record asked { rt = freed rt a.copy })
    else (
      a.copy,
      record asked {
        rt = record rt { stats = record_alloc rt.stats size };
        state = record state { forwarded = record { from = obj; to = a.copy } ∷ state.forwarded };
        wl = Worklist.push a.push_granted ctx.wl a.copy;
      },
    )

unfoldable pub promote : (ℕ → Answers) → MinorCtx → Ptr → Ptr × MinorCtx
promote answers ctx obj =
    if obj == null || not (in_nursery ctx.state obj)
    then (obj, ctx)
    else elim (find_forward ctx.state.forwarded obj) [
      | some forward ↦ (forward.to, ctx)
      | none ↦ copy_out (answers ctx.requests) ctx obj
    ]

unfoldable pub evacuate_slot : (ℕ → Answers) → MinorCtx → Ptr → MinorCtx
evacuate_slot answers ctx slot =
    let (obj, ctx') = promote answers ctx (ctx.rt.memory.slot slot) in
    if slot == null || ctx.rt.memory.slot slot == null
    then ctx
    else record ctx' { rt = record (ctx'.rt) { memory = set_slot ctx'.rt.memory slot obj } }

unfoldable pub evacuate_slots : (ℕ → Answers) → MinorCtx → List Ptr → MinorCtx
evacuate_slots answers ctx [] = ctx
evacuate_slots answers ctx (slot ∷ slots) =
    evacuate_slots answers (evacuate_slot answers ctx slot) slots
