-- ===== src/GenCopy/Old/Sweeping.antt =====
-- The sweep of the old generation (`gc_gen_sweep_old` of src/algo/gen_copy_ms/young_copy.c): on the
-- nodes and the memory it is the sweep of the mark-sweep algorithm, and it takes the dead objects
-- out of the card table and the heap account.
use xgc.Barrier
use xgc.Barrier.{BarrierSet}
use xgc.Barrier.Valid.{IsValid, Holds, dirty, registered, unregister_owner_lem}
use xgc.GenCopy.{barriers_or}
use xgc.GenCopy.Full.{remove_old_node_accounting, sweep_old}
use xgc.GenCopy.Old.Accounts.{
  with_accounts, unit_header, reclaim_object-with_accounts, sweep-with_accounts,
}
use xgc.GenCopy.Old.{SameYoung}
use xgc.Heap
use xgc.Heap.{GcHeap}
use xgc.MarkSweep.{Node, find_node, sweep}
use xgc.MarkSweep.Nodes.{known, marked, Distinct}
use xgc.MarkSweep.Sweeping.{dead, dead_bytes, dead_bytes_ext, sweep_unmarked, sweep_marked}
use xgc.Object.{Header}
use xgc.Runtime.{Runtime}
use xgc.Runtime.Reclaim.{reclaim_object}
use xgc.Runtime.Freeing.{bytes_at, reclaim_object-Reclaimed}
use xgc.Prelude.{
  ℕ, ◌-◌, ◌≡◌, ◌≢◌, refl, ◌∙◌, sym, ap, true, false, not, ◌&&◌, Option, none, some, List, [], ◌∷◌,
  arith, Ptr, null, ◌==◌, inl, inr, Bool-cases, if◌then◌else◌,
}

-- The barrier set and the account after the dead nodes of `ns`, with their headers, are off.
pub record Accounted (header : Ptr → Option Header) (ns : List Node) (b0 : BarrierSet) (h0 : GcHeap)
    (b : BarrierSet) (h : GcHeap) : Type 0 where
  pub valid : IsValid b
  pub cards : (q : Ptr) (j : ℕ) → dirty b q j ≡ (not (dead ns q) && dirty b0 q j)
  pub owners : (q : Ptr) → registered b q ≡ (not (dead ns q) && registered b0 q)
  pub count : h.old_object_count ≡ h0.old_object_count - dead_bytes unit_header ns
  pub bytes : h.old_object_bytes ≡ h0.old_object_bytes - dead_bytes header ns
  pub young : SameYoung h0 h

-- One object off.
pub record Off (size : ℕ) (obj : Ptr) (b0 : BarrierSet) (h0 : GcHeap) (b : BarrierSet) (h : GcHeap)
    : Type 0 where
  pub valid : IsValid b
  pub cards : (q : Ptr) (j : ℕ) → dirty b q j ≡ (not (obj == q) && dirty b0 q j)
  pub owners : (q : Ptr) → registered b q ≡ (not (obj == q) && registered b0 q)
  pub count : h.old_object_count ≡ h0.old_object_count - 1
  pub bytes : h.old_object_bytes ≡ h0.old_object_bytes - size
  pub young : SameYoung h0 h

record_old_free-Off :
    (size : ℕ) (obj : Ptr) (b0 : BarrierSet) (h0 : GcHeap) (r : Option BarrierSet)
    → Holds
        (λ b.
          IsValid b
          × ((q : Ptr) (j : ℕ) → dirty b q j ≡ (not (obj == q) && dirty b0 q j))
          × ((q : Ptr) → registered b q ≡ (not (obj == q) && registered b0 q)))
        r
    → Off size obj b0 h0 (barriers_or r b0) (Heap.record_old_free h0 size)
unfolding Heap.record_old_free
record_old_free-Off size obj b0 h0 none k = absurd k
record_old_free-Off size obj b0 h0 (some b) k = record {
  valid = k.0;
  cards = k.1;
  owners = k.2;
  count = ground arith;
  bytes = ground arith;
  young = record { base = refl; capacity = refl; used = refl };
}

-- A dead node in front.
Accounted-drop :
    (f g : Ptr → Option Header) (n : Node) (ns : List Node) (b0 b1 b : BarrierSet)
    (h0 h1 h : GcHeap)
    → known ns n.obj ≡ false
    → n.marked ≡ false
    → Off (bytes_at (f n.obj)) n.obj b0 h0 b1 h1
    → ((q : Ptr) → g q ≡ (if n.obj == q then none else f q))
    → Accounted g ns b1 h1 b h
    → Accounted f (n ∷ ns) b0 h0 b h
unfolding known marked find_node dead_bytes
Accounted-drop f g n ns b0 b1 b h0 h1 h d m o e a = record {
  valid = a.valid;
  cards = λ q j. ground (arith, a.cards q j, o.cards q j, same_find q);
  owners = λ q. ground (arith, a.owners q, o.owners q, same_find q);
  count = ground (arith, a.count, o.count);
  bytes = ground (arith, a.bytes, o.bytes, dead_bytes_ext g f ns (λ q k. other q k));
  young = record {
    base = a.young.base ∙ o.young.base;
    capacity = a.young.capacity ∙ o.young.capacity;
    used = a.young.used ∙ o.young.used;
  };
}
  where
    same_find : (q : Ptr) → n.obj ≡ q → find_node ns n.obj ≡ find_node ns q
    same_find q e = ap (find_node ns) e

    other : (q : Ptr) → known ns q ≡ true → g q ≡ f q
    other q k = ground (arith, e q, d, same_find q)

-- A live node in front.
Accounted-keep :
    (f : Ptr → Option Header) (n : Node) (ns : List Node) (b0 b : BarrierSet) (h0 h : GcHeap)
    → known ns n.obj ≡ false
    → n.marked ≡ true
    → Accounted f ns b0 h0 b h
    → Accounted f (n ∷ ns) b0 h0 b h
unfolding known marked find_node dead_bytes
Accounted-keep f n ns b0 b h0 h d m a = record {
  valid = a.valid;
  cards = λ q j. ground (arith, a.cards q j, same_find q);
  owners = λ q. ground (arith, a.owners q, same_find q);
  count = ground (arith, a.count);
  bytes = ground (arith, a.bytes);
  young = a.young;
}
  where
    same_find : (q : Ptr) → n.obj ≡ q → find_node ns n.obj ≡ find_node ns q
    same_find q e = ap (find_node ns) e

nothing :
    (f : Ptr → Option Header) (b : BarrierSet) (h : GcHeap) → IsValid b → Accounted f [] b h b h
unfolding known marked find_node dead_bytes
nothing f b h v = record {
  valid = v;
  cards = λ q j. refl;
  owners = λ q. refl;
  count = omega arith;
  bytes = omega arith;
  young = record { base = refl; capacity = refl; used = refl };
}

module _ {S : Type 0} where
  pub removed-Off :
      (rt : Runtime S) (obj : Ptr)
      → obj ≢ null
      → IsValid rt.barriers
      → (b : BarrierSet) × (h : GcHeap) × (remove_old_node_accounting rt obj ≡ with_accounts rt b h)
        × Off (bytes_at (rt.memory.header obj)) obj rt.barriers rt.heap b h
  unfolding remove_old_node_accounting
  removed-Off rt obj ne v =
      let r = Barrier.unregister_owner (some rt.barriers) obj in
      let size = bytes_at (rt.memory.header obj) in
      (
        barriers_or r rt.barriers,
        Heap.record_old_free rt.heap size,
        ground (arith, ne),
        record_old_free-Off size obj rt.barriers rt.heap r (unregister_owner_lem rt.barriers v obj),
      )

  sweep_old_marked :
      (rt : Runtime S) (n : Node) (ns : List Node)
      → n.marked ≡ true
      → sweep_old rt (n ∷ ns)
        ≡ ((sweep_old rt ns).0, record n { marked = false } ∷ (sweep_old rt ns).1)
  unfolding sweep_old
  sweep_old_marked rt n ns m = rw (m, sweep_old)

  sweep_old_unmarked :
      (rt : Runtime S) (n : Node) (ns : List Node)
      → n.marked ≡ false
      → sweep_old rt (n ∷ ns)
        ≡ sweep_old (reclaim_object (remove_old_node_accounting rt n.obj) n.obj) ns
  unfolding sweep_old
  sweep_old_unmarked rt n ns m = rw (m, sweep_old)

  -- The sweep is that of the mark-sweep algorithm but for the barrier set and the account.
  pub sweep_old-Accounted :
      (rt : Runtime S) (ns : List Node)
      → Distinct ns
      → IsValid rt.barriers
      → (b : BarrierSet) × (h : GcHeap) × (sweep_old rt ns
          ≡ (with_accounts (sweep rt ns).0 b h, (sweep rt ns).1))
        × Accounted rt.memory.header ns rt.barriers rt.heap b h
  unfolding sweep_old sweep
  sweep_old-Accounted rt [] d v =
      (rt.barriers, rt.heap, refl, nothing rt.memory.header rt.barriers rt.heap v)
  sweep_old-Accounted rt (n ∷ ns) d v = elim (Bool-cases n.marked) [
    | inl m ↦
        let (b, h, e, a) = sweep_old-Accounted rt ns d.2 v in
        (
          b,
          h,
          sweep_old_marked rt n ns m
              ∙ ap (λ r. (r.0, record n { marked = false } ∷ r.1)) e
              ∙ ap (λ r. (with_accounts r.0 b h, r.1)) (sym (sweep_marked rt n ns m)),
          Accounted-keep rt.memory.header n ns rt.barriers b rt.heap h d.0 m a,
        )
    | inr m ↦
        let (b1, h1, e1, o) = removed-Off rt n.obj d.1 v in
        let rt1 = reclaim_object rt n.obj in
        let (b, h, e, a) = sweep_old-Accounted (with_accounts rt1 b1 h1) ns d.2 o.valid in
        (
          b,
          h,
          sweep_old_unmarked rt n ns m
              ∙ ap (λ r. sweep_old (reclaim_object r n.obj) ns) e1
              ∙ ap (λ r. sweep_old r ns) (reclaim_object-with_accounts rt b1 h1 n.obj)
              ∙ e
              ∙ ap (λ r. (with_accounts r.0 b h, r.1)) (sweep-with_accounts rt1 b1 h1 ns)
              ∙ ap (λ r. (with_accounts r.0 b h, r.1)) (sym (sweep_unmarked rt n ns m)),
          Accounted-drop rt.memory.header rt1.memory.header n ns rt.barriers b1 b rt.heap h1 h d.0 m
              o (reclaim_object-Reclaimed rt n.obj d.1).header a,
        )
  ]
