-- ===== src/GenCopy/Copying.antt =====
-- What a minor collection of src/algo/gen_copy_ms/young_copy.c does to the objects: the setting that
-- its proofs share and the invariant of its loops.
pub mod Forwards
pub mod Blocks
pub mod Copies
pub mod Granted
pub mod Funding
pub mod Owning
pub mod Clearing
pub mod Steps
pub mod Promoting
pub mod Places
pub mod Writing
pub mod Evacuating
pub mod Keeping
pub mod Unchanged
pub mod Slots
pub mod Scanning
pub mod DirtyCards
pub mod Scanned
pub mod Draining
pub mod Copied
pub mod Preserved
pub mod Tests
use xgc.Barrier
use xgc.Barrier.{BarrierSet}
use xgc.CardTable.Budget.{Within, Affords}
use xgc.GenCopy.Ending.{free_count}
use xgc.GenCopy.{Forward, GenCopyState, Answers, MinorCtx, find_forward, size_at}
use xgc.GenCopy.Walking.{WholeObjects}
use xgc.GenCopy.Old.{Agrees, SameYoung}
use xgc.Heap.{GcHeap}
use xgc.MarkSweep.{Node}
use xgc.MarkSweep.Nodes.{known}
use xgc.Object.{Memory, Header, object_slots}
use xgc.Worklist
use xgc.Worklist.Stack.{stack}
use xgc.Prelude.{
  ℕ, ◌+◌, ◌≤◌, ◌<◌, ◌≡◌, ◌≢◌, ◌⊎◌, Bool, true, false, ◌&&◌, ◌||◌, Option, none, some, List, [], ◌∷◌,
  map, ltb, leb, ◌==◌, Ptr, null, length, All, size_mod, ◌*◌,
}

-- A minor collection: the memory, the nursery, the barrier set and the account when it starts, what the allocator answers, the
-- bytes that each answered block has room for, and for each nursery address whether an object starts
-- there and at which offsets its slots are.
pub record Scene : Type 0 where
  pub memory : Memory
  pub state : GenCopyState
  pub barriers : BarrierSet
  pub heap : GcHeap
  pub answers : ℕ → Answers
  pub block : ℕ
  pub starts : Ptr → Bool
  pub offsets : Ptr → List ℕ

unfoldable pub among : Ptr → List Ptr → Bool
among p [] = false
among p (q ∷ qs) = q == p || among p qs

module _ (sc : Scene) where
  abbrev pub young : Ptr → Bool
  young p =
      leb sc.state.nursery_space p && ltb p (sc.state.nursery_space + sc.state.nursery_capacity)

  abbrev pub copy : ℕ → Ptr
  copy n = (sc.answers n).copy

  -- Neither in the nursery nor in a block that the allocator answers.
  pub record Outside (s : Ptr) : Type 0 where
    pub old : young s ≡ false
    pub apart : (n : ℕ) → copy n ≢ null → (s < copy n) ⊎ (copy n + sc.block ≤ s)

  -- A reference into the nursery refers to an object.
  abbrev pub Good : Ptr → Type 0
  Good v = young v ≡ true → sc.starts v ≡ true

  -- The used part of the nursery holds whole objects, one after the other and none of them empty;
  -- references into the nursery refer to objects; an object's slots are at its type's offsets wherever it stands; and the allocator's blocks are apart from one another
  -- and from the nursery, with room for each object.
  pub record IsScene : Type 0 where
    pub space : sc.state.nursery_space ≢ null
    pub used : sc.state.nursery_used ≤ sc.state.nursery_capacity
    pub laid :
        WholeObjects sc.memory.header
          (sc.state.nursery_space + sc.state.nursery_used)
          sc.state.nursery_space
    pub room : 0 < sc.block
    pub inside :
        (p : Ptr)
        → sc.starts p ≡ true
        → (young p ≡ true)
          × (p + size_at sc.memory p ≤ sc.state.nursery_space + sc.state.nursery_capacity)
          × (size_at sc.memory p ≤ sc.block)
    pub typed :
        (p : Ptr) (m : Memory) (q : Ptr)
        → sc.starts p ≡ true
        → m.header q ≡ sc.memory.header p
        → object_slots m q ≡ map (λ o. q + o) (sc.offsets p)
    pub slots_inside :
        (p : Ptr) (o : ℕ)
        → sc.starts p ≡ true
        → among o (sc.offsets p) ≡ true
        → (o < size_at sc.memory p) × Good (sc.memory.slot (p + o))
    pub apart :
        (n k : ℕ)
        → n ≢ k
        → copy n ≢ null
        → copy k ≢ null
        → (copy n + sc.block ≤ copy k) ⊎ (copy k + sc.block ≤ copy n)
    pub elsewhere :
        (n : ℕ)
        → copy n ≢ null
        → (copy n + sc.block ≤ sc.state.nursery_space)
          ⊎ (sc.state.nursery_space + sc.state.nursery_capacity ≤ copy n)

  -- A slot that is not NULL, outside, with a reference that refers to an object.
  pub record IsRoot (s : Ptr) : Type 0 where
    pub named : s ≢ null
    pub outside : Outside s
    pub good : Good (sc.memory.slot s)

-- Where a reference leads after the promotions.
unfoldable pub forward_of : List Forward → Ptr → Ptr
forward_of fs v = elim (find_forward fs v) [ none ↦ v | some f ↦ f.to ]

-- A place that held `v` holds it still, or what it was promoted to.
abbrev pub Moved : List Forward → Ptr → Ptr → Type 0
Moved fs v w = (w ≡ v) ⊎ (w ≡ forward_of fs v)

-- Every request for a copy so far was successful.
abbrev pub AllPromoted : MinorCtx → Type 0
AllPromoted ctx = ctx.requests ≡ length ctx.state.forwarded

-- All that a promotion asks for is granted, no object is empty, and the registrations of as many
-- objects as the nursery has bytes fit `size_t`.
pub record Funded (sc : Scene) : Type 0 where
  pub granted :
      (n : ℕ)
      → (copy sc n ≢ null)
        × ((sc.answers n).forward_granted ≡ true)
        × ((sc.answers n).node_granted ≡ true)
        × ((sc.answers n).array_granted ≡ true)
        × ((sc.answers n).bits_granted ≡ true)
  pub sized : (p : Ptr) → sc.starts p ≡ true → size_at sc.memory p ≢ 0
  pub valid : Barrier.Valid.IsValid sc.barriers
  pub affords : Affords sc.barriers.old_to_young sc.state.nursery_capacity sc.block

-- The old generation agrees with its account when the collection starts, no block that the allocator
-- answers is an old object and no old object is in the nursery, and the counters have room for the nursery.
pub record OldStart (sc : Scene) : Type 0 where
  pub agrees : Agrees sc.barriers sc.heap sc.memory.header sc.state.old_objects
  pub fresh : (n : ℕ) → known sc.state.old_objects (copy sc n) ≡ false
  pub outside : (q : Ptr) → known sc.state.old_objects q ≡ true → young sc q ≡ false
  pub count_fits : sc.heap.old_object_count + sc.state.nursery_capacity < size_mod
  pub bytes_fit : sc.heap.old_object_bytes + sc.state.nursery_capacity * sc.block < size_mod

-- The old generation after `n` promotions.
pub record OldNow (sc : Scene) (n : ℕ) (b : BarrierSet) (h : GcHeap) (header : Ptr → Option Header)
    (ns : List Node) : Type 0 where
  pub agrees : Agrees b h header ns
  pub fresh : (m : ℕ) → n ≤ m → known ns (copy sc m) ≡ false
  pub count : h.old_object_count ≡ sc.heap.old_object_count + n
  pub bytes : h.old_object_bytes ≤ sc.heap.old_object_bytes + n * sc.block
  pub outside : (q : Ptr) → known ns q ≡ true → young sc q ≡ false
  pub young : SameYoung sc.heap h

module _ (sc : Scene) where
  -- A barrier set after `n` registrations.
  abbrev pub Spent : BarrierSet → ℕ → Type 0
  Spent b n = Barrier.Valid.IsValid b × Within sc.barriers.old_to_young b.old_to_young n sc.block

  -- No promotion has failed, and there is room for the rest of the nursery.
  pub record Fund (ctx : MinorCtx) : Type 0 where
    pub all : AllPromoted ctx
    pub spent : Spent ctx.rt.barriers ctx.requests
    pub old :
        OldStart sc
        → OldNow sc ctx.requests ctx.rt.barriers ctx.rt.heap ctx.rt.memory.header
            ctx.state.old_objects
    pub free :
        ctx.requests
          + free_count ctx.state.forwarded sc.state.nursery_space sc.state.nursery_capacity
        ≤ sc.state.nursery_capacity

module _ (sc : Scene) where
  -- Unless a promotion has failed, the reference does not lead into the nursery.
  abbrev pub Settled : MinorCtx → Ptr → Type 0
  Settled ctx w = AllPromoted ctx → young sc w ≡ false

  -- The invariant. `pending` are the slots of promoted objects that are still to be visited beside
  -- those of the objects on the work stack.
  pub record Inv (pending : List Ptr) (ctx : MinorCtx) : Type 0 where
    pub space : ctx.state.nursery_space ≡ sc.state.nursery_space
    pub capacity : ctx.state.nursery_capacity ≡ sc.state.nursery_capacity
    pub count : length ctx.state.forwarded ≤ ctx.requests
    pub stack_valid : Worklist.Stack.IsValid ctx.wl
    pub young_header : (p : Ptr) → young sc p ≡ true → ctx.rt.memory.header p ≡ sc.memory.header p
    pub young_slot : (p : Ptr) → young sc p ≡ true → ctx.rt.memory.slot p ≡ sc.memory.slot p
    pub outside_header : (p : Ptr) → Outside sc p → ctx.rt.memory.header p ≡ sc.memory.header p
    pub outside_slot :
        (s : Ptr)
        → Outside sc s
        → Moved ctx.state.forwarded (sc.memory.slot s) (ctx.rt.memory.slot s)
    pub placed :
        (p : Ptr) (f : Forward)
        → find_forward ctx.state.forwarded p ≡ some f
        → (n : ℕ) × (n < ctx.requests) × (f.to ≡ copy sc n) × (f.to ≢ null) × (sc.starts p ≡ true)
    pub distinct :
        (p q : Ptr) (f g : Forward)
        → find_forward ctx.state.forwarded p ≡ some f
        → find_forward ctx.state.forwarded q ≡ some g
        → f.to ≡ g.to
        → p ≡ q
    pub copy_header :
        (p : Ptr) (f : Forward)
        → find_forward ctx.state.forwarded p ≡ some f
        → ctx.rt.memory.header f.to ≡ sc.memory.header p
    pub copy_slot :
        (p : Ptr) (f : Forward) (o : ℕ)
        → find_forward ctx.state.forwarded p ≡ some f
        → o < size_at sc.memory p
        → Moved ctx.state.forwarded (sc.memory.slot (p + o)) (ctx.rt.memory.slot (f.to + o))
    pub stacked :
        (x : Ptr)
        → among x (stack ctx.wl) ≡ true
        → (p : Ptr) × (f : Forward) × (find_forward ctx.state.forwarded p ≡ some f) × (f.to ≡ x)
    pub done :
        (p : Ptr) (f : Forward)
        → find_forward ctx.state.forwarded p ≡ some f
        → (among f.to (stack ctx.wl) ≡ true)
          ⊎ ((o : ℕ)
              → among o (sc.offsets p) ≡ true
              → (among (f.to + o) pending ≡ true) ⊎ Settled ctx (ctx.rt.memory.slot (f.to + o)))
    pub fund : Funded sc → Fund sc ctx
