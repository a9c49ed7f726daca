-- ===== src/Vault/Prevout.antt =====
-- RequireVerifiedPrevout of poc/2fa-vault/internal/vault/tx.go.
use arkade_2fa_vault_poc.Prelude.{Bool, ◌&&◌, List, [], ◌∷◌, get_elem?}
use arkade_2fa_vault_poc.Prelude.Int.{eq_ℤ}
use arkade_2fa_vault_poc.Prelude.Bytes.{bytes_eq}
use arkade_2fa_vault_poc.Prelude.Checks.{
  Checked, accepted, refused, require, ◌>>=◌, ◌>>◌, from_option,
}
use arkade_2fa_vault_poc.Vault.{
  TxOut, TxIn, MsgTx, PInput, Psbt, Chain, VaultError, one_input_required, witness_utxo_required,
  bad_prevout_field, prevout_required, prevout_hash_mismatch, prevout_out_of_range,
  prevout_mismatch,
}

abbrev pub the_input : List TxIn → List PInput → Checked VaultError (TxIn × PInput)
the_input (txin ∷ []) (input ∷ []) = accepted (txin, input)
the_input [] inputs = refused one_input_required
the_input (txin ∷ []) [] = refused one_input_required
the_input (txin ∷ []) (input ∷ other ∷ inputs) = refused one_input_required
the_input (txin ∷ other ∷ tx_in) inputs = refused one_input_required

-- The one input, with its psbt record.
abbrev pub only_input : Psbt → Checked VaultError (TxIn × PInput)
only_input ptx = the_input ptx.unsigned_tx.tx_in ptx.inputs

abbrev pub only_prevout : List MsgTx → Checked VaultError MsgTx
only_prevout [] = refused prevout_required
only_prevout (prev ∷ []) = accepted prev
only_prevout (prev ∷ other ∷ fields) = refused prevout_required

abbrev pub same_output : TxOut → TxOut → Bool
same_output got want = eq_ℤ got.value want.value && bytes_eq got.pk_script want.pk_script

-- The error and nil are for the caller the same.
unfoldable pub require_verified_prevout : Chain → Psbt → Checked VaultError MsgTx
require_verified_prevout chain ptx = only_input ptx >>= λ one.
    from_option witness_utxo_required one.1.witness_utxo >>= λ got.
    from_option bad_prevout_field one.1.prevout_txs >>= λ fields. only_prevout fields >>= λ prev.
    require (bytes_eq (chain.tx_hash prev) one.0.previous_out_point.hash) prevout_hash_mismatch
    >> from_option prevout_out_of_range (get_elem? prev.tx_out one.0.previous_out_point.index)
    >>= λ want. require (same_output got want) prevout_mismatch >> accepted prev
