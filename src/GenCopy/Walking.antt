-- ===== src/GenCopy/Walking.antt =====
-- The walk over the nursery that finalizes its dead objects (`gc_gen_finalize_dead_nursery` of
-- src/algo/gen_copy_ms/young_copy.c) takes a step for each object.
use xgc.GenCopy.{Forward, find_forward}
use xgc.Runtime.Reclaim.{finalizes}
use xgc.GenCopy.Minor.{finalize_dead}
use xgc.Object.{Memory, Header}
use xgc.Prelude.{
  ℕ, zero, suc, ◌+◌, ◌≤◌, ◌<◌, ◌≡◌, ◌⊎◌, some-injective, subst, ap, refl, sym, ◌∙◌, Option,
  Option-cases, some, List, ◌∷◌, if◌then◌else◌, Ptr, arith, Bool-cases, inl, inr, is_none, ◌&&◌,
}

-- Whole objects, none of them empty, one after the other from an address to `stop`.
pub data WholeObjects (header : Ptr → Option Header) (stop : Ptr) : Ptr → Type 0 where
  finished : WholeObjects header stop stop
  object :
      {cursor : Ptr} (h : Header)
      → header cursor ≡ some h
      → 0 < h.size
      → cursor + h.size ≤ stop
      → WholeObjects header stop (cursor + h.size)
      → WholeObjects header stop cursor

-- The header at an address is as it was, or another one of the same size.
abbrev pub SizeKept : (f g : Ptr → Option Header) → Ptr → Type 0
SizeKept f g q =
    (g q ≡ f q)
    ⊎ ((h : Header) × (h' : Header) × (f q ≡ some h) × (g q ≡ some h') × (h'.size ≡ h.size))

pub WholeObjects-sizes :
    (f g : Ptr → Option Header) (stop cursor : Ptr)
    → ((q : Ptr) → cursor ≤ q → q < stop → SizeKept f g q)
    → WholeObjects f stop cursor
    → WholeObjects g stop cursor
WholeObjects-sizes f g stop cursor same finished = finished
WholeObjects-sizes f g stop cursor same (object h at some_size below rest) =
    let rest' =
      WholeObjects-sizes f g stop (cursor + h.size) (λ q lo hi. same q (omega (arith, lo)) hi)
        rest in
    elim (same cursor (omega arith) (omega (arith, some_size, below))) [
      | inl e ↦ object h (e ∙ at) some_size below rest'
      | inr (h0, h', was, is, size) ↦
          let equal : h'.size ≡ h.size =
            size ∙ ap (λ (x : Header). x.size) (some-injective h0 h (sym was ∙ at)) in
          object h' is (omega (arith, equal, some_size)) (omega (arith, equal, below))
            (subst (WholeObjects g stop) (ap (λ n. cursor + n) (sym equal)) rest')
    ]

-- The same headers between the two addresses.
pub WholeObjects-same :
    (f g : Ptr → Option Header) (stop cursor : Ptr)
    → ((q : Ptr) → cursor ≤ q → q < stop → g q ≡ f q)
    → WholeObjects f stop cursor
    → WholeObjects g stop cursor
WholeObjects-same f g stop cursor same w =
    WholeObjects-sizes f g stop cursor (λ q lo hi. inl (same q lo hi)) w

-- Objects that are put behind the last one.
pub WholeObjects-append :
    (f : Ptr → Option Header) (middle stop cursor : Ptr)
    → WholeObjects f middle cursor
    → WholeObjects f stop middle
    → middle ≤ stop
    → WholeObjects f stop cursor
WholeObjects-append f middle stop cursor finished w le = w
WholeObjects-append f middle stop cursor (object h at some_size below rest) w le =
    object h at some_size (omega (arith, below, le))
      (WholeObjects-append f middle stop (cursor + h.size) rest w le)

-- What a walk answers: the memory with its headers and slots as they were.
abbrev pub Walked : Memory → Option Memory → Type 0
Walked m r = (m' : Memory) × (r ≡ some m') × (m'.header ≡ m.header) × (m'.slot ≡ m.slot)

finalize_step :
    (fuel : ℕ) (m : Memory) (forwarded : List Forward) (cursor stop : Ptr) (h : Header)
    → m.header cursor ≡ some h
    → cursor < stop
    → finalize_dead (suc fuel) m forwarded cursor stop
      ≡ finalize_dead fuel
          (if is_none (find_forward forwarded cursor) && finalizes h
            then record m { finalized = cursor ∷ m.finalized }
            else m)
          forwarded
          (cursor + h.size)
          stop
unfolding finalize_dead
finalize_step fuel m forwarded cursor stop h at below = ground (arith, at, below)

finalize_done :
    (fuel : ℕ) (m : Memory) (forwarded : List Forward) (stop : Ptr)
    → finalize_dead (suc fuel) m forwarded stop stop ≡ some m
unfolding finalize_dead
finalize_done fuel m forwarded stop = elim (Option-cases (m.header stop)) [
  | inl off ↦ ground (arith, off)
  | inr (h, on) ↦ ground (arith, on)
]

-- The walk ends, and leaves headers and slots as they are.
pub finalize_dead_ends :
    (fuel : ℕ) (m : Memory) (forwarded : List Forward) (stop cursor : Ptr)
    → WholeObjects m.header stop cursor
    → stop < cursor + fuel
    → cursor ≤ stop
    → Walked m (finalize_dead fuel m forwarded cursor stop)
finalize_dead_ends zero m forwarded stop cursor w lt le = absurd (omega (arith, lt, le))
finalize_dead_ends (suc fuel) m forwarded stop cursor finished lt le =
    (m, finalize_done fuel m forwarded stop, refl, refl)
finalize_dead_ends (suc fuel) m forwarded stop cursor (object h at some_size below rest) lt le =
    let step = finalize_step fuel m forwarded cursor stop h at (omega (arith, some_size, below)) in
    let ends = λ (x : Memory) (w : WholeObjects x.header stop (cursor + h.size)).
      finalize_dead_ends fuel x forwarded stop (cursor + h.size) w (omega (arith, lt, some_size))
        below in
    elim (Bool-cases (is_none (find_forward forwarded cursor) && finalizes h)) [
      | inl e ↦
          let (m', eq, header, slot) = ends (record m { finalized = cursor ∷ m.finalized }) rest in
          (m', step ∙ rw e eq, header, slot)
      | inr e ↦ let (m', eq, header, slot) = ends m rest in (m', step ∙ rw e eq, header, slot)
    ]
