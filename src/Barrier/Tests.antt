-- ===== src/Barrier/Tests.antt =====
-- Runs of src/core/barrier.c with one owner of 600 bytes, which has three cards of 256 bytes.
use xgc.Bitmap
use xgc.Bitmap.{Bitmap}
use xgc.CardTable
use xgc.CardTable.{
  CardEntry, CardTable, find_from, find_entry, card_index_for_slot, effective_granularity,
  mark_card, account_dirty_card,
}
use xgc.CardTable.Registration.{card_count_for, grow}
use xgc.CardTable.Entries.{sum_of}
use xgc.CardTable.Dirtying.{slot_card, owner_card}
use xgc.CardTable.Visiting.{count_calls}
use xgc.Barrier.{
  BarrierSet, set_init, register_owner, unregister_owner, mark_slot_dirty, mark_owner_dirty,
  clear_owner_dirty, is_owner_dirty, visit_dirty_cards, set_check_invariants,
}
use xgc.Barrier.Valid.{
  IsValid, Holds, dirty, registered, mark_slot_dirty_lem, mark_owner_dirty_lem,
  clear_owner_dirty_lem, unregister_owner_lem, register_owner_lem,
}
use xgc.Barrier.Steps.{Reach, start, next, register, mark_slot, Reach-IsValid, Reach-set_check}
use xgc.Barrier.Remembering.{visit_dirty_cards_lem, mark_slot-visit, is_owner_dirty_iff}
use xgc.Prelude.{
  ℕ, ◌+◌, ◌-◌, ◌*◌, ◌≤◌, ◌<◌, ◌≡◌, ◌↔◌, refl, true, false, not, ◌&&◌, ◌||◌, some, [], ◌∷◌, arith,
  ◌==◌, if◌then◌else◌, Ptr,
}

abbrev entry_of : ℕ → ℕ → CardEntry
entry_of count bits = record {
  owner_base = 4096;
  owner_size = 600;
  card_count = 3;
  dirty_card_count = count;
  dirty_map = record { bits = some (bits ∷ []); bit_count = 3; byte_count = 1 };
}

abbrev barriers_of : ℕ → ℕ → ℕ → BarrierSet
barriers_of objects count bits = record {
  old_to_young = record {
    entries = entry_of count bits ∷ [];
    is_allocated = true;
    capacity = 32;
    card_granularity = 256;
  };
  dirty_old_objects = objects;
  dirty_cards = count;
}

-- After the registration, and after a store into the second card.
abbrev clean_one : BarrierSet
clean_one = barriers_of 0 0 0

abbrev dirty_one : BarrierSet
dirty_one = barriers_of 1 1 2

run_register : (register_owner true true (some (set_init 256)) 4096 600).1 ≡ some clean_one
unfolding register_owner set_init CardTable.init CardTable.Registration.register_owner
    card_count_for grow find_entry find_from effective_granularity Bitmap.init Bitmap.resize
run_register = refl

run_mark : mark_slot_dirty (some clean_one) 4096 4400 ≡ some dirty_one
unfolding mark_slot_dirty CardTable.mark_slot find_entry find_from card_index_for_slot
    effective_granularity mark_card Bitmap.test account_dirty_card Bitmap.set CardTable.put_entry
run_mark = refl

clean_one-Reach : Reach 256 clean_one
unfolding set_init CardTable.init sum_of
clean_one-Reach =
    next start
      (register true true 4096 600 clean_one (omega arith) (omega arith) (omega arith) run_register)

dirty_one-Reach : Reach 256 dirty_one
dirty_one-Reach = next clean_one-Reach (mark_slot 4096 4400 dirty_one run_mark)

clean_one-IsValid : IsValid clean_one
clean_one-IsValid = Reach-IsValid 256 (omega arith) clean_one-Reach

dirty_one-IsValid : IsValid dirty_one
dirty_one-IsValid = Reach-IsValid 256 (omega arith) dirty_one-Reach

Reach-set_check_example : set_check_invariants dirty_one ≡ true
Reach-set_check_example = Reach-set_check 256 dirty_one (omega arith) dirty_one-Reach

mark_slot-visit_example :
    Holds
      (λ b'.
        (j : ℕ) × (j * 256 ≤ 4400 - 4096)
        × (4400 - 4096 < j * 256 + 256)
        × (visit_dirty_cards true (some b') (count_calls 4096 j) 0 ≡ 1))
      (mark_slot_dirty (some clean_one) 4096 4400)
unfolding find_from
mark_slot-visit_example =
    mark_slot-visit clean_one 4096 4400 (entry_of 0 0) clean_one-IsValid refl (omega arith)
      (omega arith)

mark_slot_dirty_lem_example :
    Holds
      (λ b'.
        IsValid b'
        × ((q : Ptr) (j : ℕ)
            → dirty b' q j
              ≡ (slot_card clean_one.old_to_young 4096 4400 q j || dirty clean_one q j)))
      (mark_slot_dirty (some clean_one) 4096 4400)
mark_slot_dirty_lem_example = mark_slot_dirty_lem clean_one clean_one-IsValid 4096 4400

mark_owner_dirty_lem_example :
    Holds
      (λ b'.
        IsValid b'
        × ((q : Ptr) (j : ℕ)
            → dirty b' q j ≡ (owner_card dirty_one.old_to_young 4096 q j || dirty dirty_one q j)))
      (mark_owner_dirty (some dirty_one) 4096)
mark_owner_dirty_lem_example = mark_owner_dirty_lem dirty_one dirty_one-IsValid 4096

clear_owner_dirty_lem_example :
    Holds
      (λ b'.
        IsValid b' × ((q : Ptr) (j : ℕ) → dirty b' q j ≡ (not (4096 == q) && dirty dirty_one q j)))
      (clear_owner_dirty (some dirty_one) 4096)
clear_owner_dirty_lem_example = clear_owner_dirty_lem dirty_one dirty_one-IsValid 4096

unregister_owner_lem_example :
    Holds
      (λ b'.
        IsValid b'
        × ((q : Ptr) (j : ℕ) → dirty b' q j ≡ (not (4096 == q) && dirty dirty_one q j))
        × ((q : Ptr) → registered b' q ≡ (not (4096 == q) && registered dirty_one q)))
      (unregister_owner (some dirty_one) 4096)
unregister_owner_lem_example = unregister_owner_lem dirty_one dirty_one-IsValid 4096

register_owner_lem_example :
    Holds
      (λ b'.
        IsValid b'
        × ((q : Ptr) (j : ℕ) → dirty b' q j ≡ dirty dirty_one q j)
        × ((q : Ptr)
            → registered b' q ≡ (
                ((register_owner true true (some dirty_one) 8192 300).0 && 8192 == q)
                || registered dirty_one q)))
      (register_owner true true (some dirty_one) 8192 300).1
unfolding sum_of
register_owner_lem_example =
    register_owner_lem dirty_one dirty_one-IsValid 8192 true true 300 (omega arith) (omega arith)
      (omega arith)

visit_dirty_cards_lem_example :
    (visit_dirty_cards true (some dirty_one) (count_calls 4096 1) 0
      ≡ (if dirty dirty_one 4096 1 then 1 else 0))
    × (visit_dirty_cards false (some dirty_one) (count_calls 4096 1) 0 ≡ 0)
visit_dirty_cards_lem_example = visit_dirty_cards_lem dirty_one 4096 1 dirty_one-IsValid

is_owner_dirty_iff_example :
    (is_owner_dirty (some dirty_one) 4096 ≡ true) ↔ ((j : ℕ) × (dirty dirty_one 4096 j ≡ true))
is_owner_dirty_iff_example = is_owner_dirty_iff dirty_one 4096 dirty_one-IsValid
