-- ===== src/Arkade/Result.antt =====
-- Errors of the script machine of pkg/arkade, and actions on a state that may fail. A failed action
-- leaves the state as the code left it.

-- The txscript error codes that the modelled code returns; `index_panic` is Go's panic on an index.
pub data ErrorCode : Type 0 where
  invalid_stack_operation number_too_big minimal_data minimal_if unbalanced_conditional : ErrorCode
  verify_failed equal_verify_failed early_return reserved_opcode element_too_big : ErrorCode
  script_too_big stack_overflow malformed_push unsupported_version invalid_program_counter :
      ErrorCode
  witness_program_empty discourage_upgradeable_taproot_version unsupported_program btcd_error :
      ErrorCode
  invalid_index not_push_only witness_malleated witness_unexpected : ErrorCode
  discourage_nops script_unfinished clean_stack empty_stack eval_false index_panic : ErrorCode

pub data Result {ℓ} (A : Type ℓ) : Type ℓ where
  ok : A → Result A
  err : ErrorCode → Result A

abbrev pub Action {ℓ} : Type ℓ → Type ℓ → Type ℓ
Action S A = S → Result A × S

module _ {ℓ} {S A B : Type ℓ} where
  abbrev pub continue : Result A × S → (A → Action S B) → Result B × S
  continue (ok a, s) f = f a s
  continue (err e, s) f = (err e, s)

  infixl 5 ◌>>=◌ ◌>>◌
  abbrev pub ◌>>=◌ : Action S A → (A → Action S B) → Action S B
  ◌>>=◌ m f s = continue (m s) f

  abbrev pub ◌>>◌ : Action S A → Action S B → Action S B
  m >> n = m >>= λ _. n

module _ {ℓ} {S A : Type ℓ} where
  abbrev pub pure : A → Action S A
  pure a s = (ok a, s)

  abbrev pub raise : ErrorCode → Action S A
  raise e s = (err e, s)

  abbrev pub lift : Result A → Action S A
  lift r s = (r, s)
