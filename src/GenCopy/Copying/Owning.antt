-- ===== src/GenCopy/Copying/Owning.antt =====
-- A copy belongs to the old generation: it has a node, is registered and counted
-- (src/algo/gen_copy_ms/young_copy.c).
use xgc.GenCopy.{MinorCtx, find_forward, copy_object, copy_out, size_at}
use xgc.CardTable.Budget.{mul_step, mul_room}
use xgc.GenCopy.Copying.{Scene, IsScene, Inv, Funded, OldStart, OldNow, copy}
use xgc.GenCopy.Copying.Blocks.{copied, made_memory}
use xgc.GenCopy.Copying.Funding.{size, size_eq, left, made-registered, made_heap, made_objects}
use xgc.GenCopy.Forwarding.{refused}
use xgc.GenCopy.Old.Accounts.{held_bytes_sizes}
use xgc.Heap
use xgc.Heap.{GcHeap}
use xgc.MarkSweep.{Node, find_node}
use xgc.MarkSweep.Held.{held_bytes}
use xgc.MarkSweep.Nodes.{known, marked}
use xgc.GenCopy.Old.{Agrees}
use xgc.Object.{Memory, Header}
use xgc.Runtime.Freeing.{bytes_at}
use xgc.Prelude.{
  ℕ, ◌+◌, ◌<◌, ◌≤◌, ◌≡◌, ◌≢◌, sym, ap, ◌∙◌, subst, true, false, none, List, ◌∷◌, ◌||◌, ◌==◌, Ptr,
  arith, Option,
}

-- One more unmarked node in front.
module _ (c : Ptr) (ns : List Node) where
  abbrev pub more : List Node
  more = record { obj = c; marked = false } ∷ ns

  pub more-known : (q : Ptr) → known more q ≡ (c == q || known ns q)
  unfolding known find_node
  more-known q = ground arith

  pub more-marked : (q : Ptr) → marked ns q ≡ false → marked more q ≡ false
  unfolding marked find_node
  more-marked q h = ground (arith, h)

  pub more-held_bytes :
      (f g : Ptr → Option Header)
      → known ns c ≡ false
      → ((q : Ptr) → c ≢ q → g q ≡ f q)
      → (s : ℕ) → bytes_at (g c) ≡ s
      → held_bytes g more ≡ s + held_bytes f ns
  unfolding held_bytes
  more-held_bytes f g fresh same s e =
      omega (arith, held_bytes_sizes g f ns (λ q k. ap bytes_at (same q (apart q k))), e)
    where
      apart : (q : Ptr) → known ns q ≡ true → c ≢ q
      apart q k e = ground (arith, fresh, k, ap (known ns) e)

module _ (sc : Scene) (k : IsScene sc) (pending : List Ptr) (ctx : MinorCtx)
    (i : Inv sc pending ctx) (obj : Ptr) (start : sc.starts obj ≡ true)
    (fresh : find_forward ctx.state.forwarded obj ≡ none) (fd : Funded sc) (s : OldStart sc) where
  abbrev now :
      OldNow sc ctx.requests ctx.rt.barriers ctx.rt.heap ctx.rt.memory.header ctx.state.old_objects
  now = (i.fund fd).old s

  abbrev bytes : ℕ
  bytes = size sc k pending ctx i obj start fresh fd

  small : bytes ≤ sc.block
  small = omega (arith, size_eq sc k pending ctx i obj start fresh fd, (k.inside obj start).2)

  room : ctx.requests < sc.state.nursery_capacity
  room = left sc k pending ctx i obj start fresh fd

  abbrev heap' : GcHeap
  heap' = Heap.record_old_alloc ctx.rt.heap bytes

  heap_count : heap'.old_object_count ≡ ctx.rt.heap.old_object_count + 1
  unfolding Heap.record_old_alloc
  heap_count = omega (arith, now.count, room, s.count_fits)

  heap_bytes : heap'.old_object_bytes ≡ ctx.rt.heap.old_object_bytes + bytes
  unfolding Heap.record_old_alloc
  heap_bytes = omega (
    arith,
    now.bytes,
    small,
    s.bytes_fit,
    mul_room ctx.requests sc.state.nursery_capacity sc.block room,
  )

  module _ (h : refused (sc.answers ctx.requests) ctx obj ≡ false) where
    abbrev out : Ptr × MinorCtx
    out = copy_out (sc.answers ctx.requests) ctx obj

    abbrev objects : List Node
    objects = more (copy sc ctx.requests) ctx.state.old_objects

    new_header :
        (q : Ptr) → copy sc ctx.requests ≢ q → out.1.rt.memory.header q ≡ ctx.rt.memory.header q
    new_header q ne = ap (λ m. m.header q) (made_memory (sc.answers ctx.requests) ctx obj h) ∙ other
      where
        other : (copied (sc.answers ctx.requests) ctx obj).header q ≡ ctx.rt.memory.header q
        other = unfold copy_object in ground (arith, ne)

    new_bytes : bytes_at (out.1.rt.memory.header (copy sc ctx.requests)) ≡ bytes
    new_bytes =
        ap (λ m. bytes_at (m.header (copy sc ctx.requests)))
          (made_memory (sc.answers ctx.requests) ctx obj h)
        ∙ same (copied (sc.answers ctx.requests) ctx obj) (copy sc ctx.requests)
      where
        same : (m : Memory) (p : Ptr) → bytes_at (m.header p) ≡ size_at m p
        same m p = ground arith

    objects-Agrees : Agrees out.1.rt.barriers heap' out.1.rt.memory.header objects
    objects-Agrees = record {
      distinct =
          (now.fresh ctx.requests (omega arith), (fd.granted ctx.requests).0, now.agrees.distinct);
      white = λ q. more-marked (copy sc ctx.requests) ctx.state.old_objects q (now.agrees.white q);
      tracked = λ q. ground (
        arith,
        made-registered sc k pending ctx i obj start fresh fd h q,
        now.agrees.tracked q,
        more-known (copy sc ctx.requests) ctx.state.old_objects q,
      );
      count = omega (arith, heap_count, now.agrees.count);
      bytes = omega (
        arith,
        heap_bytes,
        now.agrees.bytes,
        more-held_bytes (copy sc ctx.requests) ctx.state.old_objects ctx.rt.memory.header
            out.1.rt.memory.header (now.fresh ctx.requests (omega arith)) new_header bytes
            new_bytes,
      );
    }

    pub made-OldNow :
        OldNow sc
          (ctx.requests + 1)
          out.1.rt.barriers
          out.1.rt.heap
          out.1.rt.memory.header
          out.1.state.old_objects
    unfolding Heap.record_old_alloc
    made-OldNow =
        subst
          (λ (x : GcHeap).
            OldNow sc (ctx.requests + 1) out.1.rt.barriers x out.1.rt.memory.header
              out.1.state.old_objects)
          (sym (made_heap sc k pending ctx i obj start fresh fd h))
          (subst
            (λ ns. OldNow sc (ctx.requests + 1) out.1.rt.barriers heap' out.1.rt.memory.header ns)
            (sym (made_objects sc k pending ctx i obj start fresh fd h))
            (record {
              agrees = objects-Agrees;
              fresh = λ m le. ground (
                arith,
                now.fresh m (omega arith),
                more-known (copy sc ctx.requests) ctx.state.old_objects (copy sc m),
                apart m le,
              );
              count = omega (arith, heap_count, now.count);
              bytes = omega (arith, heap_bytes, now.bytes, small, mul_step ctx.requests sc.block);
              outside = λ q on. ground (
                arith,
                on,
                now.outside q,
                more-known (copy sc ctx.requests) ctx.state.old_objects q,
                k.room,
                k.elsewhere ctx.requests (fd.granted ctx.requests).0,
              );
              young = record {
                base = now.young.base;
                capacity = now.young.capacity;
                used = now.young.used;
              };
            }))
      where
        apart : (m : ℕ) → ctx.requests + 1 ≤ m → copy sc ctx.requests ≢ copy sc m
        apart m le e = ground (
          arith,
          k.room,
          k.apart ctx.requests m (omega arith) (fd.granted ctx.requests).0 (fd.granted m).0,
          e,
        )
