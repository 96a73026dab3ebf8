-- ===== src/Runtime/Freeing.antt =====
-- What one call of `gc_reclaim_object` changes (src/core/reclaim.c): the object is freed, counted off
-- and finalized, and nothing else changes.
use xgc.Object.{Header, set_header}
use xgc.Runtime.{Runtime}
use xgc.Runtime.Reclaim.{reclaim_object, finalizes, release_bytes, release_memory}
use xgc.Prelude.{
  ℕ, ◌+◌, ◌-◌, ◌≡◌, ◌≢◌, refl, ◌∙◌, ap, Bool, false, ◌&&◌, Option, none, some, List, [], ◌∷◌, arith,
  ◌==◌, if◌then◌else◌, Ptr, null, inl, inr, Option-cases,
}

-- The bytes of the object at an address, by its header.
abbrev pub bytes_at : Option Header → ℕ
bytes_at none = 0
bytes_at (some h) = h.size

abbrev pub finalizes_at : Option Header → Bool
finalizes_at none = false
finalizes_at (some h) = finalizes h

-- How often an object is on a list.
unfoldable pub times : Ptr → List Ptr → ℕ
times q [] = 0
times q (p ∷ ps) = (if p == q then 1 else 0) + times q ps

-- What a reclamation leaves alone.
pub record KeepsRest {S : Type 0} (a b : Runtime S) : Type 0 where
  pub cfg : b.cfg ≡ a.cfg
  pub algo_state : b.algo_state ≡ a.algo_state
  pub barriers : b.barriers ≡ a.barriers
  pub heap : b.heap ≡ a.heap
  pub handles : b.handles ≡ a.handles
  pub scan_roots : b.scan_roots ≡ a.scan_roots
  pub worklist_data : b.worklist_data ≡ a.worklist_data
  pub worklist_allocated : b.worklist_allocated ≡ a.worklist_allocated
  pub worklist_capacity : b.worklist_capacity ≡ a.worklist_capacity
  pub slot : (s : Ptr) → b.memory.slot s ≡ a.memory.slot s
  pub gc_state : b.gc_state ≡ a.gc_state
  pub peak : b.stats.peak_allocated ≡ a.stats.peak_allocated
  pub minor_collections : b.stats.minor_collections ≡ a.stats.minor_collections
  pub major_collections : b.stats.major_collections ≡ a.stats.major_collections
  pub full_collections : b.stats.full_collections ≡ a.stats.full_collections

module _ {S : Type 0} where
  pub keeps_trans : (a b c : Runtime S) → KeepsRest a b → KeepsRest b c → KeepsRest a c
  keeps_trans a b c h k = record {
    cfg = k.cfg ∙ h.cfg;
    algo_state = k.algo_state ∙ h.algo_state;
    barriers = k.barriers ∙ h.barriers;
    heap = k.heap ∙ h.heap;
    handles = k.handles ∙ h.handles;
    scan_roots = k.scan_roots ∙ h.scan_roots;
    worklist_data = k.worklist_data ∙ h.worklist_data;
    worklist_allocated = k.worklist_allocated ∙ h.worklist_allocated;
    worklist_capacity = k.worklist_capacity ∙ h.worklist_capacity;
    slot = λ s. k.slot s ∙ h.slot s;
    gc_state = k.gc_state ∙ h.gc_state;
    peak = k.peak ∙ h.peak;
    minor_collections = k.minor_collections ∙ h.minor_collections;
    major_collections = k.major_collections ∙ h.major_collections;
    full_collections = k.full_collections ∙ h.full_collections;
  }

  pub keeps_refl : (a : Runtime S) → KeepsRest a a
  keeps_refl a = record {
    cfg = refl;
    algo_state = refl;
    barriers = refl;
    heap = refl;
    handles = refl;
    scan_roots = refl;
    worklist_data = refl;
    worklist_allocated = refl;
    worklist_capacity = refl;
    slot = λ s. refl;
    gc_state = refl;
    peak = refl;
    minor_collections = refl;
    major_collections = refl;
    full_collections = refl;
  }

  -- What the reclamation of one object changes.
  pub record Reclaimed (rt : Runtime S) (obj : Ptr) (rt' : Runtime S) : Type 0 where
    pub rest : KeepsRest rt rt'
    pub header : (q : Ptr) → rt'.memory.header q ≡ (if obj == q then none else rt.memory.header q)
    pub total :
        rt'.stats.total_allocated ≡ rt.stats.total_allocated - bytes_at (rt.memory.header obj)
    pub finalized :
        (q : Ptr)
        → times q rt'.memory.finalized
          ≡ (if obj == q && finalizes_at (rt.memory.header obj) then 1 else 0)
            + times q rt.memory.finalized

  -- Reclaiming an object other than NULL frees it and no other, finalizes it once if its type has
  -- a finalizer, takes its bytes off the total, held at 0, and changes nothing else of the
  -- runtime.
  pub reclaim_object-Reclaimed :
      (rt : Runtime S) (obj : Ptr) → obj ≢ null → Reclaimed rt obj (reclaim_object rt obj)
  reclaim_object-Reclaimed rt obj ne = elim (Option-cases (rt.memory.header obj)) [
    | inl off ↦ rw (gone off) (record {
      rest = keeps_refl rt;
      header = λ q. ground (arith, off, same_header q);
      total = rw off (omega arith);
      finalized = λ q. ground (arith, off);
    })
    | inr (h, on) ↦ rw (freed h on) (record {
      rest = keeps_rest h;
      header = λ q. header_lem h q;
      total = ground (arith, on);
      finalized = λ q. finalized_lem h on q;
    })
  ]
    where
      gone : rt.memory.header obj ≡ none → reclaim_object rt obj ≡ rt
      gone off = unfold reclaim_object in ground (arith, off)

      freed :
          (h : Header)
          → rt.memory.header obj ≡ some h
          → reclaim_object rt obj ≡ record rt {
            stats = release_bytes rt.stats h.size;
            memory = release_memory rt.memory obj h;
          }
      freed h on = unfold reclaim_object in ground (arith, on)

      same_header : (q : Ptr) → obj ≡ q → rt.memory.header obj ≡ rt.memory.header q
      same_header q e = ap rt.memory.header e

      slot_lem : (h : Header) (s : Ptr) → (release_memory rt.memory obj h).slot s ≡ rt.memory.slot s
      slot_lem h s = unfold set_header in ground arith

      keeps_rest :
          (h : Header)
          → KeepsRest rt (record rt {
            stats = release_bytes rt.stats h.size;
            memory = release_memory rt.memory obj h;
          })
      keeps_rest h = record {
        cfg = refl;
        algo_state = refl;
        barriers = refl;
        heap = refl;
        handles = refl;
        scan_roots = refl;
        worklist_data = refl;
        worklist_allocated = refl;
        worklist_capacity = refl;
        slot = slot_lem h;
        gc_state = refl;
        peak = refl;
        minor_collections = refl;
        major_collections = refl;
        full_collections = refl;
      }

      header_lem :
          (h : Header) (q : Ptr)
          → (release_memory rt.memory obj h).header q
            ≡ (if obj == q then none else rt.memory.header q)
      header_lem h q = unfold set_header in ground arith

      finalized_lem :
          (h : Header)
          → rt.memory.header obj ≡ some h
          → (q : Ptr)
          → times q (release_memory rt.memory obj h).finalized
            ≡ (if obj == q && finalizes_at (rt.memory.header obj) then 1 else 0)
              + times q rt.memory.finalized
      finalized_lem h on q = unfold set_header times in ground (arith, on)
