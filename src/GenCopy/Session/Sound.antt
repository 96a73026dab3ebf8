-- ===== src/GenCopy/Session/Sound.antt =====
-- Every runtime of a program is sound, and the checkers accept it
-- (src/algo/gen_copy_ms/young_copy.c, src/core/invariants.c).
use xgc.Barrier.{set_check_invariants}
use xgc.Barrier.Checks.{IsValid-set_check}
use xgc.GenCopy.{GenCopyState}
use xgc.GenCopy.Session.{
  IsSound, Call, Reach, start, next, allocate, store, acquire, release, minor, major, full,
}
use xgc.GenCopy.Session.Calls.{store-Sound}
use xgc.GenCopy.Session.Collecting.{minor-IsSound, minor-outcome, full-outcome}
use xgc.GenCopy.Session.Keeping.{Sound, changed-IsSound}
use xgc.GenCopy.Session.Starting.{
  nursery_size, first_state, first_runtime, first-IsSound, create_eq,
}
use xgc.GenCopy.Session.Typed.{some-Sound, acquire-Sound, release-Sound}
use xgc.GenCopy.Table
use xgc.GenCopy.Table.{CallAnswers, vtable}
use xgc.Heap
use xgc.MarkSweep.{Node}
use xgc.MarkSweep.Held.{held_bytes}
use xgc.Object.{Memory, Header}
use xgc.Runtime.{Runtime, Stats, GcConfig, Vtable}
use xgc.Runtime.Allocation.{alloc_typed}
use xgc.Runtime.Collection.{
  collect_minor, collect_major, collect_full, count_minor, count_major, count_full,
}
use xgc.Runtime.Creation.{create, config_of}
use mathlib.Core.Option
use xgc.Prelude.{
  ◌<◌, ◌≡◌, ◌≢◌, refl, sym, ◌∙◌, subst, inl, true, Option, none, some, some-injective, List, [],
  ◌∷◌, Ptr, null, arith, Ends, Ends-some, length, size_mod,
}

-- The counters of the collections are no part of the state.
counted :
    (rt : Runtime GenCopyState) → Sound rt → (stats : Stats) → Sound (record rt { stats = stats })
counted rt (state, s) stats =
    (state, changed-IsSound rt state s rt.memory rt.handles stats (λ q c. inl refl))

Ends-counted :
    (count : Runtime GenCopyState → Runtime GenCopyState)
    (plain : (rt : Runtime GenCopyState) → count rt ≡ record rt { stats = (count rt).stats })
    (o : Option (Runtime GenCopyState))
    → Ends Sound o
    → Ends Sound (Option.map count o)
Ends-counted count plain none e = e
Ends-counted count plain (some rt) e = subst Sound (sym (plain rt)) (counted rt e (count rt).stats)

Call-Sound : {rt rt' : Runtime GenCopyState} → Call rt rt' → Sound rt → Sound rt'
unfolding alloc_typed collect_minor collect_major collect_full
Call-Sound {rt} (allocate a raw state none size flags obj rt' at k e) s =
    Ends-some (λ r. Sound r.1) (alloc_typed (vtable a) raw rt none size flags) (obj, rt') s e
Call-Sound {rt} (allocate a raw state (some desc) size flags obj rt' at k e) (st, s) =
    let s' = subst (IsSound rt) (some-injective st state (sym s.old.attached ∙ at)) s in
    Ends-some (λ r. Sound r.1) (alloc_typed (vtable a) raw rt (some desc) size flags) (obj, rt')
      (some-Sound rt state s' a raw size flags k desc) e
Call-Sound {rt} (store a owner slot new_value) s = store-Sound rt s a owner slot new_value
Call-Sound {rt} (acquire a node obj flags) (st, s) = acquire-Sound rt st s a node obj flags
Call-Sound {rt} (release a handle) (st, s) = release-Sound rt st s a handle
Call-Sound {rt} (minor a sc rt' k e) (st, s) =
    let (rt1, eq, m) = minor-outcome a sc rt k st s in
    Ends-some Sound (Option.map count_minor (Table.collect_minor a rt)) rt'
      (Ends-counted count_minor (λ r. refl) (Table.collect_minor a rt)
        (subst (Ends Sound) (sym eq) (m.state, minor-IsSound a sc rt k st s rt1 m)))
      e
Call-Sound {rt} (major a sc rt' k all e) (st, s) =
    Ends-some Sound (Option.map count_major (Table.collect a rt)) rt'
      (Ends-counted count_major (λ r. refl) (Table.collect a rt) (full-outcome a sc rt k st s all))
      e
Call-Sound {rt} (full a sc rt' k all e) (st, s) =
    Ends-some Sound (Option.map count_full (Table.collect a rt)) rt'
      (Ends-counted count_full (λ r. refl) (Table.collect a rt) (full-outcome a sc rt k st s all)) e

Reach-Sound : {rt0 rt : Runtime GenCopyState} → Reach rt0 rt → Sound rt0 → Sound rt
Reach-Sound start s = s
Reach-Sound (next r c) s = Call-Sound c (Reach-Sound r s)

no_bytes : (f : Ptr → Option Header) (ns : List Node) → length ns ≡ 0 → held_bytes f ns ≡ 0
unfolding held_bytes
no_bytes f [] e = refl
no_bytes f (n ∷ ns) e = absurd (omega (arith, e))

-- The checkers of the account and of the barrier set accept the runtime.
abbrev pub Checked : Runtime GenCopyState → Type 0
Checked rt = (Heap.check_invariants rt.heap ≡ true) × (set_check_invariants rt.barriers ≡ true)

Sound-Checked : (rt : Runtime GenCopyState) → Sound rt → Checked rt
unfolding Heap.check_invariants
Sound-Checked rt (state, s) = (
  ground (
    arith,
    s.space,
    s.base,
    s.capacity,
    s.used,
    s.room,
    s.old.agrees.count,
    s.old.agrees.bytes,
    no_bytes rt.memory.header state.old_objects,
  ),
  IsValid-set_check rt.barriers s.old.barriers,
)

-- In a program that creates a runtime with this algorithm (everything granted, and both sizes fit
-- `size_t`) and makes calls of the library, the account and the barrier set stay in order: the
-- checkers of both accept the runtime, the account says where the nursery is and how much of it is
-- in use, that part holds whole objects, and the old generation has one node for each old object,
-- registered and counted once. The calls are allocations through `gc_alloc_typed`, granted or not,
-- at addresses that are NULL or outside the nursery and of no old object, of sizes that rounded up
-- are below 4 GiB and with counters that do not wrap; stores; handles acquired and released; and collections, minor,
-- major and full, asked for or made by an allocation, with all requests granted, of a nursery that
-- is in use and whose objects' references refer to objects.
pub Reach-Checked :
    (a : CallAnswers) (cfg : Option GcConfig) (roots : Option (List Ptr)) (memory : Memory)
    (algo : Vtable GenCopyState) (rt0 rt : Runtime GenCopyState)
    → a.state_granted ≡ true
    → a.space ≢ null
    → (config_of cfg).gc_region_size < size_mod
    → nursery_size (config_of cfg) < size_mod
    → create true true cfg none (vtable a) roots memory ≡ some (algo, rt0)
    → Reach rt0 rt
    → Checked rt × Sound rt
Reach-Checked a cfg roots memory algo rt0 rt granted space region nursery e reach =
    let s0 : Sound rt0 =
      Ends-some (λ r. Sound r.1)
        (some (vtable a, first_runtime a cfg roots memory granted space region nursery)) (algo, rt0)
        (
          first_state a cfg roots memory granted space region nursery,
          first-IsSound a cfg roots memory granted space region nursery,
        )
        (sym (create_eq a cfg roots memory granted space region nursery) ∙ e) in
    let s = Reach-Sound reach s0 in (Sound-Checked rt s, s)
