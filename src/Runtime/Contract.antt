-- ===== src/Runtime/Contract.antt =====
-- The start-up validation of src/core/runtime.c: which algorithms may run.
use xgc.Runtime.{Vtable}
use xgc.Prelude.{
  ◌≡◌, ◌↔◌, ◌⊎◌, Bool, true, false, not, ◌&&◌, ◌||◌, Option, none, some, List, Ptr, arith, is_none,
  if◌then◌else◌,
}

-- The VM's hooks are not mandatory.
unfoldable pub validate_vm_contract : Option (List Ptr) → Bool
validate_vm_contract hooks = true

module _ {S : Type 0} where
  unfoldable pub validate_algorithm_contract : Vtable S → Bool
  validate_algorithm_contract algo =
      if not algo.has_name
      then false
      else if is_none algo.alloc
      then false
      else if is_none algo.collect_full
      then false
      else if algo.caps.requires_write_barrier && is_none algo.write_barrier
      then false
      else if algo.caps.requires_read_barrier && is_none algo.read_barrier
      then false
      else if algo.caps.supports_moving && (is_none algo.pin || is_none algo.unpin)
      then false
      else not (algo.caps.supports_generations && is_none algo.collect_minor)

  unfoldable pub validate_contracts : Option (Vtable S) → Option (List Ptr) → Bool
  unfolding validate_algorithm_contract validate_vm_contract
  validate_contracts none hooks = false
  validate_contracts (some algo) hooks =
      if not (validate_algorithm_contract algo) then false else validate_vm_contract hooks

  -- What the runtime may call without a test, once an algorithm has been accepted.
  pub record Honours (algo : Vtable S) : Type 0 where
    pub named : algo.has_name ≡ true
    pub allocates : is_none algo.alloc ≡ false
    pub collects : is_none algo.collect_full ≡ false
    pub write_barrier :
        (algo.caps.requires_write_barrier ≡ false) ⊎ (is_none algo.write_barrier ≡ false)
    pub read_barrier :
        (algo.caps.requires_read_barrier ≡ false) ⊎ (is_none algo.read_barrier ≡ false)
    pub pin : (algo.caps.supports_moving ≡ false) ⊎ (is_none algo.pin ≡ false)
    pub unpin : (algo.caps.supports_moving ≡ false) ⊎ (is_none algo.unpin ≡ false)
    pub minor : (algo.caps.supports_generations ≡ false) ⊎ (is_none algo.collect_minor ≡ false)

  -- The validation accepts an algorithm exactly if it has a name, the two mandatory functions and
  -- every function that its capabilities announce.
  pub validate_contracts_iff :
      (algo : Vtable S) (hooks : Option (List Ptr))
      → (validate_contracts (some algo) hooks ≡ true) ↔ Honours algo
  unfolding validate_contracts
  validate_contracts_iff algo hooks = (λ h. ground arith, λ h. ground arith)
