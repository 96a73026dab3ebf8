-- ===== src/Barrier/Steps.antt =====
-- A program that works on the barrier set through src/core/barrier.c: each step is one call with
-- whatever arguments and memory.
use xgc.CardTable.Entries.{sum_of}
use xgc.CardTable.Valid.{cards_of}
use xgc.Barrier.{
  BarrierSet, set_init, register_owner, unregister_owner, mark_slot_dirty, mark_owner_dirty,
  clear_owner_dirty, set_check_invariants,
}
use xgc.Barrier.Valid.{
  IsValid, Holds, set_init-IsValid, mark_slot_dirty_lem, mark_owner_dirty_lem,
  clear_owner_dirty_lem, unregister_owner_lem, register_owner_lem,
}
use xgc.Barrier.Checks.{IsValid-set_check}
use xgc.Prelude.{ℕ, ◌+◌, ◌*◌, ◌<◌, ◌≡◌, subst, Bool, true, Option, some, size_mod, Ptr}

-- One call. A registration has sizes that fit `size_t`.
pub data Step (b : BarrierSet) : BarrierSet → Type 0 where
  register :
      (array_granted bits_granted : Bool) (owner : Ptr) (owner_size : ℕ) (b' : BarrierSet)
      → b.old_to_young.capacity * 2 < size_mod
      → owner_size + b.old_to_young.card_granularity < size_mod
      → sum_of cards_of b.old_to_young.entries + owner_size + 7 < size_mod
      → (register_owner array_granted bits_granted (some b) owner owner_size).1 ≡ some b'
      → Step b b'
  unregister :
      (owner : Ptr) (b' : BarrierSet) → unregister_owner (some b) owner ≡ some b' → Step b b'
  mark_slot :
      (owner slot : Ptr) (b' : BarrierSet)
      → mark_slot_dirty (some b) owner slot ≡ some b'
      → Step b b'
  mark_owner :
      (owner : Ptr) (b' : BarrierSet) → mark_owner_dirty (some b) owner ≡ some b' → Step b b'
  clear_owner :
      (owner : Ptr) (b' : BarrierSet) → clear_owner_dirty (some b) owner ≡ some b' → Step b b'

-- The states that calls lead to from the initial one.
pub data Reach (granularity : ℕ) : BarrierSet → Type 0 where
  start : Reach granularity (set_init granularity)
  next : {b b' : BarrierSet} → Reach granularity b → Step b b' → Reach granularity b'

holds_of :
    (P : BarrierSet → Type 0) (r : Option BarrierSet) (b : BarrierSet)
    → Holds P r
    → r ≡ some b
    → P b
holds_of P r b h e = subst (Holds P) e h

pub Step-IsValid : {b b' : BarrierSet} → Step b b' → IsValid b → IsValid b'
Step-IsValid {b} (register ag bg owner owner_size b' f1 f2 f3 e) v =
    (holds_of _ _ b' (register_owner_lem b v owner ag bg owner_size f1 f2 f3) e).0
Step-IsValid {b} (unregister owner b' e) v = (holds_of _ _ b' (unregister_owner_lem b v owner) e).0
Step-IsValid {b} (mark_slot owner slot b' e) v =
    (holds_of _ _ b' (mark_slot_dirty_lem b v owner slot) e).0
Step-IsValid {b} (mark_owner owner b' e) v = (holds_of _ _ b' (mark_owner_dirty_lem b v owner) e).0
Step-IsValid {b} (clear_owner owner b' e) v =
    (holds_of _ _ b' (clear_owner_dirty_lem b v owner) e).0

pub Reach-IsValid : (g : ℕ) {b : BarrierSet} → g < size_mod → Reach g b → IsValid b
Reach-IsValid g h start = set_init-IsValid g h
Reach-IsValid g h (next r s) = Step-IsValid s (Reach-IsValid g h r)

-- Whatever calls a program makes from the initial barrier set on, with whatever memory granted or
-- refused, as long as the sizes that it registers do not wrap in `size_t`, the checker
-- `gc_barrier_set_check_invariants` accepts the state.
pub Reach-set_check :
    (granularity : ℕ) (b : BarrierSet)
    → granularity < size_mod
    → Reach granularity b
    → set_check_invariants b ≡ true
Reach-set_check g b h r = IsValid-set_check b (Reach-IsValid g h r)
