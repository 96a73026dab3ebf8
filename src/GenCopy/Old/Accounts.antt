-- ===== src/GenCopy/Old/Accounts.antt =====
-- A sweep does not look at the barrier set or the heap account (src/core/reclaim.c,
-- src/algo/marksweep/ms.c).
use xgc.Barrier.{BarrierSet}
use xgc.Heap.{GcHeap}
use xgc.MarkSweep.{Node, sweep, find_node}
use xgc.MarkSweep.Held.{held_bytes}
use xgc.MarkSweep.Nodes.{known}
use xgc.Object.{Header}
use xgc.Runtime.{Runtime}
use xgc.Runtime.Freeing.{bytes_at}
use xgc.Runtime.Reclaim.{reclaim_object}
use xgc.Prelude.{
  ◌≡◌, refl, true, Option, none, some, List, [], ◌∷◌, arith, Ptr, null, length, ◌==◌, inl, inr,
  Bool-cases, Option-cases,
}

-- Another barrier set and another account.
abbrev pub with_accounts : {S : Type 0} → Runtime S → BarrierSet → GcHeap → Runtime S
with_accounts rt b h = record rt { barriers = b; heap = h }

module _ {S : Type 0} where
  pub reclaim_object-with_accounts :
      (rt : Runtime S) (b : BarrierSet) (h : GcHeap) (obj : Ptr)
      → reclaim_object (with_accounts rt b h) obj ≡ with_accounts (reclaim_object rt obj) b h
  unfolding reclaim_object
  reclaim_object-with_accounts rt b h obj = elim (Bool-cases (obj == null)) [
    | inl z ↦ rw (z, reclaim_object)
    | inr z ↦ elim (Option-cases (rt.memory.header obj)) [
      | inl off ↦ rw (z, off, reclaim_object)
      | inr (x, on) ↦ rw (z, on, reclaim_object)
    ]
  ]

  pub sweep-with_accounts :
      (rt : Runtime S) (b : BarrierSet) (h : GcHeap) (ns : List Node)
      → sweep (with_accounts rt b h) ns ≡ (with_accounts (sweep rt ns).0 b h, (sweep rt ns).1)
  unfolding sweep
  sweep-with_accounts rt b h [] = refl
  sweep-with_accounts rt b h (n ∷ ns) = elim (Bool-cases n.marked) [
    | inl m ↦ rw (m, sweep) (rw (sweep-with_accounts rt b h ns))
    | inr m ↦
        rw (m, sweep)
          (rw (reclaim_object-with_accounts rt b h n.obj)
            (sweep-with_accounts (reclaim_object rt n.obj) b h ns))
  ]

-- A header of one byte, with which `held_bytes` counts the nodes.
abbrev pub unit_header : Ptr → Option Header
unit_header q = some (record { desc = none; size = 1; flags = 0; kind = 0 })

pub held_bytes-unit : (ns : List Node) → held_bytes unit_header ns ≡ length ns
unfolding held_bytes
held_bytes-unit [] = refl
held_bytes-unit (n ∷ ns) = omega (arith, held_bytes-unit ns)

pub held_bytes_sizes :
    (f g : Ptr → Option Header) (ns : List Node)
    → ((q : Ptr) → known ns q ≡ true → bytes_at (f q) ≡ bytes_at (g q))
    → held_bytes f ns ≡ held_bytes g ns
unfolding held_bytes known find_node
held_bytes_sizes f g [] h = refl
held_bytes_sizes f g (n ∷ ns) h =
    ground (arith, h n.obj (ground arith), held_bytes_sizes f g ns (λ q k. h q (ground (arith, k))))
