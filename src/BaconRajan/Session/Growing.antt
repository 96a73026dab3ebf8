-- ===== src/BaconRajan/Session/Growing.antt =====
-- Memory that only grows (src/algo/bacon-rajan).
use xgc.BaconRajan.Session.{IsSound, Kept, Grows}
use xgc.Object.{Memory, Header, set_header}
use xgc.Runtime.{Runtime}
use xgc.Runtime.Flags.{update_header}
use xgc.Runtime.Program.{is_object}
use xgc.Prelude.{
  ◌≡◌, refl, ◌∙◌, ap, subst, sym, true, Option, none, some, Ptr, arith, ◌==◌, if◌then◌else◌,
  Option-cases, Bool-cases, inl, inr,
}

pub Kept-refl : (o : Option Header) → Kept o o
Kept-refl none = tt
Kept-refl (some h) = (refl, refl, refl)

Kept-trans : (a b c : Option Header) → Kept a b → Kept b c → Kept a c
Kept-trans none b c h k = tt
Kept-trans (some x) none c h k = absurd h
Kept-trans (some x) (some y) none h k = absurd k
Kept-trans (some x) (some y) (some z) h k = (k.0 ∙ h.0, k.1 ∙ h.1, k.2 ∙ h.2)

Kept-is_object : (a b : Option Header) → Kept a b → is_object a ≡ true → is_object b ≡ true
Kept-is_object none b h k = cc
Kept-is_object (some x) none h k = absurd h
Kept-is_object (some x) (some y) h k = ground (arith, h, k)

pub Grows-refl : {S : Type 0} (rt : Runtime S) → Grows rt rt
Grows-refl rt = record {
  headers = λ q. Kept-refl (rt.memory.header q);
  finalized = refl;
  total = omega arith;
}

pub Grows-trans : {S : Type 0} (a b c : Runtime S) → Grows a b → Grows b c → Grows a c
Grows-trans a b c h k = record {
  headers = λ q. Kept-trans _ _ _ (h.headers q) (k.headers q);
  finalized = k.finalized ∙ h.finalized;
  total = omega (arith, h.total, k.total);
}

-- A new object where none was.
pub Kept-new :
    (m m' : Memory) (obj : Ptr) (h : Header)
    → ((q : Ptr) → m'.header q ≡ (if obj == q then some h else m.header q))
    → m.header obj ≡ none
    → (q : Ptr) → Kept (m.header q) (m'.header q)
Kept-new m m' obj h e fresh q = elim (Option-cases (m.header q)) [
  | inl off ↦ rw off tt
  | inr (x, on) ↦
      subst (Kept (m.header q)) (sym (e q ∙ ground (arith, on, fresh, same)))
        (Kept-refl (m.header q))
]
  where
    same : obj ≡ q → m.header obj ≡ m.header q
    same k = ap m.header k

-- New flags for an object.
pub Kept-flags :
    (m : Memory) (obj : Ptr) (f : Header → Header)
    → ((h : Header) → ((f h).desc ≡ h.desc) × ((f h).size ≡ h.size) × ((f h).kind ≡ h.kind))
    → (q : Ptr) → Kept (m.header q) ((update_header m obj f).header q)
unfolding update_header set_header
Kept-flags m obj f k q = elim (Option-cases (m.header obj)) [
  | inl off ↦ rw (off, update_header) (Kept-refl (m.header q))
  | inr (h, on) ↦ elim (Bool-cases (obj == q)) [
    | inl e ↦
        let same : m.header q ≡ some h = ap m.header {x = q} {y = obj} (ground (arith, e)) ∙ on in
        rw (on, update_header) (rw (e, same) (k h))
    | inr e ↦ rw (on, update_header) (rw e (Kept-refl (m.header q)))
  ]
]

-- Another memory, with the objects where they were.
pub with_memory-IsSound :
    {S : Type 0} (rt : Runtime S) (m : Memory)
    → IsSound rt
    → ((q : Ptr) → Kept (rt.memory.header q) (m.header q))
    → IsSound (record rt { memory = m })
with_memory-IsSound rt m s k = record {
  targets = λ q t. Kept-is_object _ _ (k q) (s.targets q t);
  named = s.named;
  worklist = s.worklist;
  peak = s.peak;
  barriers = s.barriers;
  heap = s.heap;
  gc_state = s.gc_state;
}
