-- ===== src/GenCopy/Session/Keeping.antt =====
-- What keeps the runtime of a program sound that uses the algorithm of
-- src/algo/gen_copy_ms/young_copy.c: a change of memory that leaves the sizes of its objects.
use xgc.GenCopy.{GenCopyState}
use xgc.GenCopy.Old.Adding.{Agrees-sizes}
use xgc.GenCopy.Session.{IsSound, in_space}
use xgc.GenCopy.Walking.{WholeObjects-sizes, SizeKept}
use xgc.MarkSweep.Nodes.{known}
use xgc.Object.{Memory, Header, set_header}
use xgc.Runtime.{Runtime, Handle, Stats}
use xgc.Runtime.Flags.{update_header}
use xgc.Runtime.Freeing.{bytes_at}
use xgc.Prelude.{
  ◌+◌, ◌≡◌, ◌≢◌, null, ◌⊎◌, sym, ap, ◌∙◌, true, Option, some, List, Ptr, arith, ◌==◌, inl, inr,
  Bool-cases, Option-cases,
}

-- Some state is attached with which the runtime is sound.
abbrev pub Sound : Runtime GenCopyState → Type 0
Sound rt = (state : GenCopyState) × IsSound rt state

-- What an allocation of the algorithm answers: NULL with the state as it was, or an object that is not
-- empty; the runtime is sound.
pub record Allocated (state : GenCopyState) (r : Ptr × Runtime GenCopyState) : Type 0 where
  pub state' : GenCopyState
  pub sound : IsSound r.1 state'
  pub same : r.0 ≡ null → state' ≡ state
  pub sized : (h : Header) → r.1.memory.header r.0 ≡ some h → r.0 ≢ null → h.size ≢ 0

pub bytes_kept :
    (f g : Ptr → Option Header) (q : Ptr) → SizeKept f g q → bytes_at (f q) ≡ bytes_at (g q)
bytes_kept f g q (inl e) = ap bytes_at (sym e)
bytes_kept f g q (inr (h, h', e, e', same)) = ap bytes_at e ∙ sym same ∙ sym (ap bytes_at e')

module _ (rt : Runtime GenCopyState) (state : GenCopyState) (s : IsSound rt state) where
  -- The objects that the algorithm knows keep their sizes.
  abbrev pub KeepsSizes : Memory → Type 0
  KeepsSizes m =
      (q : Ptr)
      → (known state.old_objects q ≡ true) ⊎ (in_space state q ≡ true)
      → SizeKept rt.memory.header m.header q

  pub changed-IsSound :
      (m : Memory) (handles : List Handle) (stats : Stats)
      → KeepsSizes m
      → IsSound (record rt { memory = m; handles = handles; stats = stats }) state
  changed-IsSound m handles stats keeps = record {
    old = record {
      attached = s.old.attached;
      worklist = record { size = s.old.worklist.size; pointer = s.old.worklist.pointer };
      barriers = s.old.barriers;
      agrees =
          Agrees-sizes rt.barriers rt.heap rt.memory.header m.header state.old_objects
            (λ q on. bytes_kept rt.memory.header m.header q (keeps q (inl on))) s.old.agrees;
    };
    space = s.space;
    base = s.base;
    capacity = s.capacity;
    used = s.used;
    room = s.room;
    fits = s.fits;
    outside = s.outside;
    laid =
        WholeObjects-sizes rt.memory.header m.header (state.nursery_space + state.nursery_used)
          state.nursery_space (λ q lo hi. keeps q (inr (ground (arith, lo, hi, s.room)))) s.laid;
  }

-- An update that keeps the size of the object it is for.
pub update-SizeKept :
    (m : Memory) (obj : Ptr) (f : Header → Header)
    → ((h : Header) → m.header obj ≡ some h → (f h).size ≡ h.size)
    → (q : Ptr) → SizeKept m.header (update_header m obj f).header q
unfolding update_header set_header
update-SizeKept m obj f keeps q = elim (Option-cases (m.header obj)) [
  | inl off ↦ inl (ground (arith, off))
  | inr (h, on) ↦ elim (Bool-cases (obj == q)) [
    | inr ne ↦ inl (ground (arith, on, ne))
    | inl e ↦
        let same : obj ≡ q = ground (arith, e) in
        inr (h, f h, sym (ap m.header same) ∙ on, ground (arith, on, e), keeps h on)
  ]
]
