-- ===== src/MarkSweep/Sweeping.antt =====
-- The sweep of src/algo/marksweep/ms.c: which nodes stay, which objects are freed and finalized, and
-- the bytes that the statistics lose.
use xgc.MarkSweep.{Node, find_node, sweep}
use xgc.MarkSweep.Nodes.{known, marked, Distinct}
use xgc.Object.{Header}
use xgc.Runtime.{Runtime}
use xgc.Runtime.Reclaim.{reclaim_object}
use xgc.Runtime.Freeing.{
  KeepsRest, Reclaimed, keeps_trans, keeps_refl, bytes_at, finalizes_at, times,
  reclaim_object-Reclaimed,
}
use xgc.Prelude.{
  ℕ, ◌+◌, ◌-◌, ◌≡◌, refl, ap, Bool, true, false, not, ◌&&◌, Option, none, List, [], ◌∷◌, arith,
  if◌then◌else◌, Ptr, inl, inr, Bool-cases,
}

-- An object whose node is not marked.
abbrev pub dead : List Node → Ptr → Bool
dead ns q = known ns q && not (marked ns q)

unfoldable pub dead_bytes : (Ptr → Option Header) → List Node → ℕ
dead_bytes header [] = 0
dead_bytes header (n ∷ ns) =
    (if n.marked then 0 else bytes_at (header n.obj)) + dead_bytes header ns

pub dead_bytes_ext :
    (f g : Ptr → Option Header) (ns : List Node)
    → ((q : Ptr) → known ns q ≡ true → f q ≡ g q)
    → dead_bytes f ns ≡ dead_bytes g ns
unfolding dead_bytes known find_node
dead_bytes_ext f g [] h = refl
dead_bytes_ext f g (n ∷ ns) h =
    ground (arith, h n.obj (ground arith), dead_bytes_ext f g ns (λ q k. h q (ground (arith, k))))

-- What a sweep of the nodes `ns` changes.
pub record Swept {S : Type 0} (rt : Runtime S) (ns : List Node) (rt' : Runtime S) (ns' : List Node)
    : Type 0 where
  pub rest : KeepsRest rt rt'
  pub header : (q : Ptr) → rt'.memory.header q ≡ (if dead ns q then none else rt.memory.header q)
  pub total : rt'.stats.total_allocated ≡ rt.stats.total_allocated - dead_bytes rt.memory.header ns
  pub finalized :
      (q : Ptr)
      → times q rt'.memory.finalized
        ≡ (if dead ns q && finalizes_at (rt.memory.header q) then 1 else 0)
          + times q rt.memory.finalized
  pub owned : (q : Ptr) → known ns' q ≡ marked ns q
  pub white : (q : Ptr) → marked ns' q ≡ false
  pub distinct : Distinct ns'

module _ {S : Type 0} where
  nothing : (rt : Runtime S) → Swept rt [] (sweep rt []).0 (sweep rt []).1
  unfolding sweep known marked find_node dead_bytes
  nothing rt = record {
    rest = keeps_refl rt;
    header = λ q. refl;
    total = omega arith;
    finalized = λ q. omega arith;
    owned = λ q. refl;
    white = λ q. refl;
    distinct = tt;
  }

  -- A marked node in front.
  keep_node :
      (rt rt' : Runtime S) (n : Node) (ns ns' : List Node)
      → Distinct (n ∷ ns)
      → n.marked ≡ true
      → Swept rt ns rt' ns'
      → Swept rt (n ∷ ns) rt' (record n { marked = false } ∷ ns')
  unfolding known marked find_node dead_bytes
  keep_node rt rt' n ns ns' d m s = record {
    rest = s.rest;
    header = λ q. ground (arith, s.header q, d.0, same_find q);
    total = ground (arith, s.total);
    finalized = λ q. ground (arith, s.finalized q, d.0, same_find q);
    owned = λ q. ground (arith, s.owned q);
    white = λ q. ground (arith, s.white q);
    distinct = (ground (arith, s.owned n.obj, d.0), d.1, s.distinct);
  }
    where
      same_find : (q : Ptr) → n.obj ≡ q → find_node ns n.obj ≡ find_node ns q
      same_find q e = ap (find_node ns) e

  -- An unmarked node in front.
  drop_node :
      (rt rt1 rt' : Runtime S) (n : Node) (ns ns' : List Node)
      → Distinct (n ∷ ns)
      → n.marked ≡ false
      → Reclaimed rt n.obj rt1
      → Swept rt1 ns rt' ns'
      → Swept rt (n ∷ ns) rt' ns'
  unfolding known marked find_node dead_bytes
  drop_node rt rt1 rt' n ns ns' d m r s = record {
    rest = keeps_trans rt rt1 rt' r.rest s.rest;
    header = λ q. ground (arith, s.header q, r.header q, d.0, same_find q);
    total = ground (
      arith,
      s.total,
      r.total,
      dead_bytes_ext rt1.memory.header rt.memory.header ns (λ q k. other_header q k),
    );
    finalized = λ q.
        ground (arith, s.finalized q, r.finalized q, r.header q, d.0, same_find q, same_header q);
    owned = λ q. ground (arith, s.owned q, d.0, same_find q);
    white = s.white;
    distinct = s.distinct;
  }
    where
      same_find : (q : Ptr) → n.obj ≡ q → find_node ns n.obj ≡ find_node ns q
      same_find q e = ap (find_node ns) e

      other_header : (q : Ptr) → known ns q ≡ true → rt1.memory.header q ≡ rt.memory.header q
      other_header q k = ground (arith, r.header q, d.0, same_find q)

      same_header : (q : Ptr) → n.obj ≡ q → rt.memory.header n.obj ≡ rt.memory.header q
      same_header q e = ap rt.memory.header e

  pub sweep_marked :
      (rt : Runtime S) (n : Node) (ns : List Node)
      → n.marked ≡ true
      → sweep rt (n ∷ ns) ≡ ((sweep rt ns).0, record n { marked = false } ∷ (sweep rt ns).1)
  unfolding sweep
  sweep_marked rt n ns m = rw (m, sweep)

  pub sweep_unmarked :
      (rt : Runtime S) (n : Node) (ns : List Node)
      → n.marked ≡ false
      → sweep rt (n ∷ ns) ≡ sweep (reclaim_object rt n.obj) ns
  unfolding sweep
  sweep_unmarked rt n ns m = rw (m, sweep)

  -- The sweep of distinct nodes keeps the marked ones, with their marks cleared; it frees exactly the
  -- objects of the others, finalizes each of them once if its type has a finalizer, and takes their
  -- bytes off the total, held at 0; it changes nothing else of the runtime.
  pub sweep-Swept :
      (rt : Runtime S) (ns : List Node) → Distinct ns → Swept rt ns (sweep rt ns).0 (sweep rt ns).1
  sweep-Swept rt [] d = nothing rt
  sweep-Swept rt (n ∷ ns) d = elim (Bool-cases n.marked) [
    | inl m ↦
        rw (sweep_marked rt n ns m)
          (keep_node rt (sweep rt ns).0 n ns (sweep rt ns).1 d m (sweep-Swept rt ns d.2))
    | inr m ↦
        let rt1 = reclaim_object rt n.obj in
        rw (sweep_unmarked rt n ns m) (
          drop_node rt rt1 (sweep rt1 ns).0 n ns (sweep rt1 ns).1 d m
            (reclaim_object-Reclaimed rt n.obj d.1) (sweep-Swept rt1 ns d.2))
  ]
