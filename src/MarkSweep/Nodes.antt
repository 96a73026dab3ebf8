-- ===== src/MarkSweep/Nodes.antt =====
-- The list of nodes as a set of objects with marks (src/algo/marksweep/ms.c).
use xgc.MarkSweep.{Node, find_node, set_marked}
use xgc.Prelude.{
  ℕ, suc, ◌+◌, ◌≤◌, ◌≡◌, ◌≢◌, refl, Bool, true, false, not, ◌&&◌, ◌||◌, Option, none, some, List,
  [], ◌∷◌, arith, ◌==◌, if◌then◌else◌, Ptr, length, is_none,
}

abbrev pub node_marked : Option Node → Bool
node_marked none = false
node_marked (some n) = n.marked

-- Does the collector own the object?
unfoldable pub known : List Node → Ptr → Bool
known ns q = not (is_none (find_node ns q))

unfoldable pub marked : List Node → Ptr → Bool
marked ns q = node_marked (find_node ns q)

unfoldable pub unmarked_count : List Node → ℕ
unmarked_count [] = 0
unmarked_count (n ∷ ns) = (if n.marked then 0 else 1) + unmarked_count ns

-- No object has two nodes, and none is NULL.
abbrev pub Distinct : List Node → Type 0
Distinct [] = Unit
Distinct (n ∷ ns) = (known ns n.obj ≡ false) × (n.obj ≢ 0) × Distinct ns

pub obj_of_found : (ns : List Node) (p : Ptr) (n : Node) → find_node ns p ≡ some n → n.obj ≡ p
unfolding find_node
obj_of_found [] p n h = cc
obj_of_found (x ∷ ns) p n h = ground (arith, obj_of_found ns p n)

pub known-null : (ns : List Node) → Distinct ns → known ns 0 ≡ false
unfolding known find_node
known-null [] d = refl
known-null (n ∷ ns) d = ground (arith, known-null ns d.2, d.1)

pub marked-known : (ns : List Node) (q : Ptr) → marked ns q ≡ true → known ns q ≡ true
unfolding marked known
marked-known ns q h = ground arith

pub unmarked_count-le : (ns : List Node) → unmarked_count ns ≤ length ns
unfolding unmarked_count
unmarked_count-le [] = omega arith
unmarked_count-le (n ∷ ns) = ground (arith, unmarked_count-le ns)

module _ (p : Ptr) where
  -- Marking an owned object marks it and no other.
  pub known-set_marked : (ns : List Node) (q : Ptr) → known (set_marked ns p) q ≡ known ns q
  unfolding known find_node set_marked
  known-set_marked [] q = refl
  known-set_marked (n ∷ ns) q = ground (arith, known-set_marked ns q)

  pub marked-set_marked :
      (ns : List Node) (q : Ptr)
      → marked (set_marked ns p) q ≡ ((p == q && known ns q) || marked ns q)
  unfolding known marked find_node set_marked
  marked-set_marked [] q = ground arith
  marked-set_marked (n ∷ ns) q = ground (arith, marked-set_marked ns q)

  pub unmarked_count-set_marked :
      (ns : List Node)
      → known ns p ≡ true
      → marked ns p ≡ false
      → suc (unmarked_count (set_marked ns p)) ≡ unmarked_count ns
  unfolding known marked find_node set_marked unmarked_count
  unmarked_count-set_marked [] k h = cc
  unmarked_count-set_marked (n ∷ ns) k h = ground (arith, unmarked_count-set_marked ns)

  pub Distinct-set_marked : (ns : List Node) → Distinct ns → Distinct (set_marked ns p)
  unfolding set_marked
  Distinct-set_marked [] d = tt
  Distinct-set_marked (n ∷ ns) d = ground (arith, Distinct-set_marked ns, known-set_marked ns n.obj)
