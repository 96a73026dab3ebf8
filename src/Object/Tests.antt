-- ===== src/Object/Tests.antt =====
-- Traces of an object of 64 bytes (src/core/descriptor.c).
use xgc.Prelude.{
  some-injective, ℕ, ◌+◌, ◌≤◌, ◌<◌, ◌≡◌, refl, subst, true, false, ◌&&◌, ltb, leb, none, some, List,
  [], ◌∷◌, arith, ◌==◌, if◌then◌else◌, Ptr,
}
use xgc.Object.{Descriptor, Header, Memory, traced_size, trace_object_slots_in_range, object_slots}
use xgc.Object.Tracing.{is_listed, range_lem, range-object_slots}

-- A callback that hands over the first slot of the range.
abbrev first_slot : Ptr → ℕ → ℕ → List Ptr
first_slot obj byte_begin byte_end = (obj + byte_begin) ∷ []

abbrev ranged : Descriptor
ranged = record {
  fixed_size = 64;
  flags = 0;
  kind = 1;
  trace_slots = none;
  trace_slots_range = some first_slot;
  has_finalize = false;
}

abbrev whole : Descriptor
whole = record {
  fixed_size = 64;
  flags = 0;
  kind = 1;
  trace_slots = some (λ obj. (obj + 16) ∷ []);
  trace_slots_range = none;
  has_finalize = false;
}

-- Its size is that of its type.
abbrev header_of : Descriptor → Header
header_of desc = record { desc = some desc; size = 0; flags = 0; kind = 1 }

abbrev memory_of : Descriptor → Memory
memory_of desc = record {
  header = λ p. if p == 4096 then some (header_of desc) else none;
  slot = λ p. 0;
  finalized = [];
}

run_cut : trace_object_slots_in_range (memory_of ranged) 4096 32 256 ≡ 4128 ∷ []
unfolding trace_object_slots_in_range traced_size
run_cut = refl

run_past : trace_object_slots_in_range (memory_of ranged) 4096 64 256 ≡ []
unfolding trace_object_slots_in_range traced_size
run_past = refl

range_lem_example :
    (cut : ℕ) × (trace_object_slots_in_range (memory_of ranged) 4096 32 256
      ≡ first_slot 4096 32 cut)
    × (40 < cut)
    × (cut ≤ traced_size (header_of ranged) ranged)
    × (cut ≤ 256)
unfolding traced_size
range_lem_example =
    range_lem (memory_of ranged) 4096 (header_of ranged) ranged (omega arith) refl refl first_slot
      32 256 40 refl (omega arith) (omega arith) (omega arith)

-- A range callback that agrees with the full trace.
abbrev agreeing : Descriptor
agreeing = record whole {
  trace_slots_range =
      some (λ obj first past. if leb first 16 && ltb 16 past then (obj + 16) ∷ [] else []);
}

agreeing_covers :
    (range : Ptr → ℕ → ℕ → List Ptr) (first past o : ℕ)
    → agreeing.trace_slots_range ≡ some range
    → first ≤ o
    → o < past
    → is_listed (4096 + o) (object_slots (memory_of agreeing) 4096) ≡ true
    → is_listed (4096 + o) (range 4096 first past) ≡ true
unfolding object_slots is_listed
agreeing_covers range first past o e lo hi listed =
    subst (λ (r : Ptr → ℕ → ℕ → List Ptr). is_listed (4096 + o) (r 4096 first past) ≡ true)
      (some-injective _ _ e) (ground arith)

range-object_slots_example :
    is_listed 4112 (trace_object_slots_in_range (memory_of agreeing) 4096 8 24) ≡ true
unfolding object_slots is_listed traced_size
range-object_slots_example =
    range-object_slots (memory_of agreeing) 4096 (header_of agreeing) agreeing (omega arith) refl
      refl 8 24 16 agreeing_covers (omega arith) (omega arith) (omega arith) refl
