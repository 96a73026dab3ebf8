-- ===== src/MarkSweep/Session/Objects.antt =====
-- Allocations and header writes keep a program's runtime sound (src/core/runtime.c with
-- src/algo/marksweep/ms.c).
use xgc.MarkSweep.{Node, MarkSweepState, find_node}
use xgc.MarkSweep.Algorithm
use xgc.MarkSweep.Held.{held_bytes}
use xgc.MarkSweep.Nodes.{known, marked}
use xgc.MarkSweep.Session.{IsSound}
use xgc.Runtime.Program.{is_object}
use xgc.Object.{Memory, Header}
use xgc.Runtime.{Runtime}
use xgc.Runtime.Freeing.{bytes_at}
use xgc.Prelude.{
  ℕ, ◌+◌, ◌<◌, ◌≡◌, ◌≢◌, refl, ◌∙◌, ap, true, false, Option, none, some, List, [], ◌∷◌, Ptr, null,
  is_none, arith, ◌==◌, if◌then◌else◌, size_mod,
}

pub held_bytes_ext :
    (f g : Ptr → Option Header) (ns : List Node)
    → ((q : Ptr) → known ns q ≡ true → bytes_at (f q) ≡ bytes_at (g q))
    → held_bytes f ns ≡ held_bytes g ns
unfolding held_bytes known find_node
held_bytes_ext f g [] h = refl
held_bytes_ext f g (n ∷ ns) h =
    ground (arith, h n.obj (ground arith), held_bytes_ext f g ns (λ q k. h q (ground (arith, k))))

module _ (rt : Runtime MarkSweepState) (state : MarkSweepState) (s : IsSound rt state) where
  -- No object of the collector lives at an address that the allocator answers.
  pub known-fresh : (obj : Ptr) → rt.memory.header obj ≡ none → known state.objects obj ≡ false
  known-fresh obj fresh = ground (arith, s.headers obj)

  -- Another memory, with the objects where they were and as large.
  pub with_memory-IsSound :
      (m : Memory)
      → ((q : Ptr) → is_object (rt.memory.header q) ≡ true → is_object (m.header q) ≡ true)
      → ((q : Ptr)
          → known state.objects q ≡ true
          → bytes_at (m.header q) ≡ bytes_at (rt.memory.header q))
      → IsSound (record rt { memory = m }) state
  with_memory-IsSound m keeps same = record {
    ready = record {
      attached = s.ready.attached;
      distinct = s.ready.distinct;
      white = s.ready.white;
      worklist = record { size = s.ready.worklist.size; pointer = s.ready.worklist.pointer };
    };
    headers = λ q k. keeps q (s.headers q k);
    targets = λ q k. keeps q (s.targets q k);
    named = s.named;
    total =
        s.total
        ∙ held_bytes_ext rt.memory.header m.header state.objects (λ q k. ground (arith, same q));
    peak = s.peak;
    barriers = s.barriers;
    heap = s.heap;
    gc_state = s.gc_state;
  }

  module _ (m : Memory) (obj : Ptr) (h : Header) (size : ℕ)
      (header_lem : (q : Ptr) → m.header q ≡ (if obj == q then some h else rt.memory.header q))
      (sized : h.size ≡ size) (typed : is_none h.desc ≡ false) (nonzero : size ≢ 0)
      (fresh : rt.memory.header obj ≡ none) where
    fresh_at : (q : Ptr) → obj ≡ q → rt.memory.header q ≡ none
    fresh_at q e = ap rt.memory.header {x = q} {y = obj} (omega arith) ∙ fresh

    -- A new object that the algorithm does not know.
    pub fresh-IsSound : IsSound (record rt { memory = m }) state
    fresh-IsSound =
        with_memory-IsSound m (λ q k. ground (arith, header_lem q))
          (λ q k. ground (arith, header_lem q, fresh_at q, s.headers q))

    -- A new object of the algorithm.
    abbrev pub grown_state : MarkSweepState
    grown_state = record { objects = record { obj = obj; marked = false } ∷ state.objects }

    abbrev pub grown_runtime : Runtime MarkSweepState
    grown_runtime = record rt {
      algo_state = some grown_state;
      stats = Algorithm.record_alloc rt.stats size;
      memory = m;
    }

    pub grown-IsSound :
        obj ≢ null → rt.stats.total_allocated + size < size_mod → IsSound grown_runtime grown_state
    unfolding known marked find_node held_bytes
    grown-IsSound ne fits =
        let f = fresh-IsSound in
        record {
          ready = record {
            attached = refl;
            distinct = (ground (arith, known-fresh obj fresh), ne, s.ready.distinct);
            white = λ q. ground (arith, s.ready.white q);
            worklist = record { size = s.ready.worklist.size; pointer = s.ready.worklist.pointer };
          };
          headers = λ q k. ground (arith, header_lem q, f.headers q);
          targets = f.targets;
          named = s.named;
          total = ground (arith, header_lem obj, f.total);
          peak = ground (arith, s.peak);
          barriers = s.barriers;
          heap = s.heap;
          gc_state = s.gc_state;
        }
