-- ===== src/Arkade/Ensures.antt =====
-- Postconditions of actions that may fail, for the proofs about pkg/arkade.
use arkade_2fa_vault_poc.Arkade.Result.{Result, ok, err, continue}

module _ {S : Type 0} where
  -- Where the action succeeds, its result and its state satisfy `P`.
  abbrev pub Ensures : {A : Type 0} → (A → S → Type 0) → Result A × S → Type 0
  Ensures P (ok a, s) = P a s
  Ensures P (err e, s) = Unit

  pub Ensures-continue :
      {A B : Type 0} (P : A → S → Type 0) (Q : B → S → Type 0) (t : Result A × S)
      (f : A → S → Result B × S)
      → Ensures P t
      → ((a : A) (s : S) → P a s → Ensures Q (f a s))
      → Ensures Q (continue t f)
  Ensures-continue P Q (ok a, s) f h next = next a s h
  Ensures-continue P Q (err e, s) f h next = tt

  pub Ensures-mono :
      {A : Type 0} (P Q : A → S → Type 0) (t : Result A × S)
      → ((a : A) (s : S) → P a s → Q a s)
      → Ensures P t
      → Ensures Q t
  Ensures-mono P Q (ok a, s) weaken h = weaken a s h
  Ensures-mono P Q (err e, s) weaken h = tt
