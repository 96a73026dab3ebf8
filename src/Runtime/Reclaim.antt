-- ===== src/Runtime/Reclaim.antt =====
-- `gc_reclaim_object` (src/core/reclaim.c).
use xgc.Object.{Memory, Header, set_header}
use xgc.Runtime.{Runtime, Stats}
use xgc.Prelude.{ℕ, ◌-◌, Bool, false, none, some, ◌∷◌, leb, ◌==◌, if◌then◌else◌, Ptr, null}

-- Does the object have a descriptor with a finalizer?
abbrev pub finalizes : Header → Bool
finalizes h = elim h.desc [ none ↦ false | some d ↦ d.has_finalize ]

-- `*total -= size`, held at 0.
abbrev pub release_bytes : Stats → ℕ → Stats
release_bytes s size = record s {
  total_allocated = if leb size s.total_allocated then s.total_allocated - size else 0;
}

-- The finalizer is run and the object freed: no object starts at its address afterwards.
abbrev pub release_memory : Memory → Ptr → Header → Memory
release_memory m obj h =
    let m' = set_header m obj none in
    if finalizes h then record m' { finalized = obj ∷ m.finalized } else m'

-- `obj->size` of an address where no object starts is a read after `free`; it counts as 0 here, and
-- the callers' invariants exclude it.
unfoldable pub reclaim_object : {S : Type 0} → Runtime S → Ptr → Runtime S
reclaim_object rt obj = if obj == null then rt else elim (rt.memory.header obj) [
  | none ↦ rt
  | some h ↦ record rt {
    stats = release_bytes rt.stats h.size;
    memory = release_memory rt.memory obj h;
  }
]
