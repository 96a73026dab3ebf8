-- ===== src/GenCopy/Old/Adding.antt =====
-- An object that is added to the old generation (`gc_gen_add_old_node` of
-- src/algo/gen_copy_ms/young_copy.c).
use xgc.Barrier
use xgc.Barrier.{BarrierSet}
use xgc.Barrier.Valid.{IsValid, Holds, registered, register_owner_lem}
use xgc.CardTable.Entries.{sum_of}
use xgc.CardTable.Valid.{cards_of}
use xgc.GenCopy.{GenCopyState, Answers, add_old_node, barriers_or, size_at}
use xgc.GenCopy.Copying.Owning.{more, more-known, more-marked, more-held_bytes}
use xgc.GenCopy.Old.{Agrees, SameYoung}
use xgc.GenCopy.Old.Accounts.{held_bytes_sizes}
use xgc.Heap
use xgc.Heap.{GcHeap}
use xgc.MarkSweep.{Node}
use xgc.MarkSweep.Nodes.{known}
use xgc.Object.{Header}
use xgc.Runtime.{Runtime}
use xgc.Runtime.Freeing.{bytes_at}
use xgc.Prelude.{
  ℕ, ◌+◌, ◌*◌, ◌<◌, ◌≡◌, ◌≢◌, refl, Bool, true, false, not, ◌||◌, ◌&&◌, Option, none, some, List,
  ◌==◌, Ptr, null, arith, size_mod, Bool-cases, inl, inr,
}

-- Only the sizes of the old objects matter.
pub Agrees-sizes :
    (b : BarrierSet) (h : GcHeap) (f g : Ptr → Option Header) (ns : List Node)
    → ((q : Ptr) → known ns q ≡ true → bytes_at (f q) ≡ bytes_at (g q))
    → Agrees b h f ns
    → Agrees b h g ns
Agrees-sizes b h f g ns same a = record {
  distinct = a.distinct;
  white = a.white;
  tracked = a.tracked;
  count = a.count;
  bytes = omega (arith, a.bytes, held_bytes_sizes f g ns same);
}

-- The runtime has room for another old object of the size.
pub record Fits (b : BarrierSet) (h : GcHeap) (size : ℕ) : Type 0 where
  pub array : b.old_to_young.capacity * 2 < size_mod
  pub granularity : size + b.old_to_young.card_granularity < size_mod
  pub cards : sum_of cards_of b.old_to_young.entries + size + 7 < size_mod
  pub count : h.old_object_count + 1 < size_mod
  pub bytes : h.old_object_bytes + size < size_mod

-- The old generation after the request.
pub record Added (rt : Runtime GenCopyState) (state : GenCopyState) (obj : Ptr)
    (r : Bool × Runtime GenCopyState × GenCopyState) : Type 0 where
  pub valid : IsValid r.1.barriers
  pub agrees : Agrees r.1.barriers r.1.heap rt.memory.header r.2.old_objects
  pub young : SameYoung rt.heap r.1.heap
  pub rest : r.1 ≡ record rt { barriers = r.1.barriers; heap = r.1.heap }
  pub state_rest : r.2 ≡ record state { old_objects = r.2.old_objects }
  pub refused : r.0 ≡ false → r.2 ≡ state
  pub known_after :
      (q : Ptr) → known r.2.old_objects q ≡ ((r.0 && obj == q) || known state.old_objects q)

module _ (a : Answers) (rt : Runtime GenCopyState) (state : GenCopyState) (obj : Ptr)
    (v : IsValid rt.barriers) (g : Agrees rt.barriers rt.heap rt.memory.header state.old_objects)
    (ne : obj ≢ null) (fresh : known state.old_objects obj ≡ false)
    (fits : Fits rt.barriers rt.heap (size_at rt.memory obj)) where
  abbrev size : ℕ
  size = size_at rt.memory obj

  abbrev registration : Bool × Option BarrierSet
  registration = Barrier.register_owner a.array_granted a.bits_granted (some rt.barriers) obj size

  abbrev registered_set : BarrierSet
  registered_set = barriers_or registration.1 rt.barriers

  registered_lem :
      IsValid registered_set
      × ((q : Ptr)
          → registered registered_set q
            ≡ ((registration.0 && obj == q) || registered rt.barriers q))
  registered_lem = go registration.1 (
      register_owner_lem rt.barriers v obj a.array_granted a.bits_granted size fits.array
        fits.granularity fits.cards)
    where
      go :
          (o : Option BarrierSet)
          → Holds
              (λ b'.
                IsValid b'
                × ((q : Ptr) (j : ℕ)
                    → Barrier.Valid.dirty b' q j ≡ Barrier.Valid.dirty rt.barriers q j)
                × ((q : Ptr)
                    → registered b' q ≡ ((registration.0 && obj == q) || registered rt.barriers q)))
              o
          → IsValid (barriers_or o rt.barriers)
            × ((q : Ptr)
                → registered (barriers_or o rt.barriers) q
                  ≡ ((registration.0 && obj == q) || registered rt.barriers q))
      go none h = absurd h
      go (some b) h = (h.0, h.2)

  unchanged-Added : Added rt state obj (false, rt, state)
  unchanged-Added = record {
    valid = v;
    agrees = g;
    young = record { base = refl; capacity = refl; used = refl };
    rest = refl;
    state_rest = refl;
    refused = λ e. refl;
    known_after = λ q. refl;
  }

  refused-Added :
      registration.0 ≡ false
      → Added rt state obj (false, record rt { barriers = registered_set }, state)
  refused-Added h = record {
    valid = registered_lem.0;
    agrees = record {
      distinct = g.distinct;
      white = g.white;
      tracked = λ q. ground (arith, registered_lem.1 q, g.tracked q, h);
      count = g.count;
      bytes = g.bytes;
    };
    young = record { base = refl; capacity = refl; used = refl };
    rest = refl;
    state_rest = refl;
    refused = λ e. refl;
    known_after = λ q. refl;
  }

  made-Added :
      registration.0 ≡ true
      → Added rt state obj (
        true,
        record rt { barriers = registered_set; heap = Heap.record_old_alloc rt.heap size },
        record state { old_objects = more obj state.old_objects },
      )
  unfolding Heap.record_old_alloc
  made-Added h = record {
    valid = registered_lem.0;
    agrees = record {
      distinct = (fresh, ne, g.distinct);
      white = λ q. more-marked obj state.old_objects q (g.white q);
      tracked = λ q.
          ground (arith, registered_lem.1 q, g.tracked q, h, more-known obj state.old_objects q);
      count = omega (arith, g.count, fits.count);
      bytes = omega (
        arith,
        g.bytes,
        fits.bytes,
        more-held_bytes obj state.old_objects rt.memory.header rt.memory.header fresh (λ q e. refl)
            size refl,
      );
    };
    young = record { base = refl; capacity = refl; used = refl };
    rest = refl;
    state_rest = refl;
    refused = λ e. absurd (ground (arith, e));
    known_after = λ q. more-known obj state.old_objects q;
  }

  pub add_old_node-Added : Added rt state obj (add_old_node a rt state obj)
  unfolding add_old_node
  add_old_node-Added = elim (Bool-cases (obj == null || not a.node_granted)) [
    | inl z ↦ rw (z, add_old_node) unchanged-Added
    | inr z ↦ elim (Bool-cases registration.0) [
      | inl h ↦ rw (z, h, add_old_node) (made-Added h)
      | inr h ↦ rw (z, h, add_old_node) (refused-Added h)
    ]
  ]
