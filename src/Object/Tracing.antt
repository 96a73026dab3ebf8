-- ===== src/Object/Tracing.antt =====
-- What `gc_trace_object_slots_in_range` hands to the VM's callbacks (src/core/descriptor.c).
use xgc.Object.{Descriptor, Header, Memory, traced_size, trace_object_slots_in_range, object_slots}
use xgc.Prelude.{
  ℕ, ◌+◌, ◌≤◌, ◌<◌, ◌≡◌, ◌≢◌, Bool, true, false, ◌||◌, ◌==◌, none, some, List, [], ◌∷◌, arith, ltb,
  if◌then◌else◌, Ptr, null, Option-cases, inl, inr,
}

unfoldable pub is_listed : Ptr → List Ptr → Bool
is_listed p [] = false
is_listed p (q ∷ qs) = p == q || is_listed p qs

module _ (m : Memory) (obj : Ptr) (header : Header) (desc : Descriptor) (ne : obj ≢ null)
    (found : m.header obj ≡ some header) (typed : header.desc ≡ some desc) where
  -- For an object with a descriptor that has a range callback, a range that holds an offset of the
  -- object is cut to the object and handed over, and still holds that offset.
  pub range_lem :
      (range : Ptr → ℕ → ℕ → List Ptr) (byte_begin byte_end offset : ℕ)
      → desc.trace_slots_range ≡ some range
      → byte_begin ≤ offset
      → offset < byte_end
      → offset < traced_size header desc
      → (cut : ℕ) × (trace_object_slots_in_range m obj byte_begin byte_end
          ≡ range obj byte_begin cut)
        × (offset < cut)
        × (cut ≤ traced_size header desc)
        × (cut ≤ byte_end)
  range_lem range byte_begin byte_end offset callback lo hi inside = (
    if ltb (traced_size header desc) byte_end then traced_size header desc else byte_end,
    traced,
    ground arith,
    ground arith,
    ground arith,
  )
    where
      traced :
          trace_object_slots_in_range m obj byte_begin byte_end
          ≡ range obj byte_begin
              (if ltb (traced_size header desc) byte_end then traced_size header desc else byte_end)
      traced = unfold trace_object_slots_in_range in ground (arith, found, typed, callback)

  -- Without a range callback the whole object is traced.
  whole_lem :
      (byte_begin byte_end : ℕ)
      → desc.trace_slots_range ≡ none
      → byte_begin < byte_end
      → byte_begin < traced_size header desc
      → trace_object_slots_in_range m obj byte_begin byte_end ≡ object_slots m obj
  unfolding trace_object_slots_in_range object_slots
  whole_lem byte_begin byte_end no_range lt inside = ground (arith, found, typed, no_range)

  -- For an object with a descriptor, a trace of a range of bytes misses no slot of the object in
  -- it: each slot that the full trace visits and whose offset lies in the range and in the object
  -- is visited, if a range callback, where there is one, hands over each slot of the full trace
  -- whose offset lies in the range it is given.
  pub range-object_slots :
      (byte_begin byte_end offset : ℕ)
      → ((range : Ptr → ℕ → ℕ → List Ptr) (first past o : ℕ)
          → desc.trace_slots_range ≡ some range
          → first ≤ o
          → o < past
          → is_listed (obj + o) (object_slots m obj) ≡ true
          → is_listed (obj + o) (range obj first past) ≡ true)
      → byte_begin ≤ offset
      → offset < byte_end
      → offset < traced_size header desc
      → is_listed (obj + offset) (object_slots m obj) ≡ true
      → is_listed (obj + offset) (trace_object_slots_in_range m obj byte_begin byte_end) ≡ true
  range-object_slots byte_begin byte_end offset covers lo hi inside slot =
      elim (Option-cases desc.trace_slots_range) [
        | inl off ↦ rw (whole_lem byte_begin byte_end off (omega arith) (omega arith)) slot
        | inr (range, on) ↦
            let (cut, traced, below, _, _) =
              range_lem range byte_begin byte_end offset on lo hi inside in
            rw traced (covers range byte_begin cut offset on lo below slot)
      ]
