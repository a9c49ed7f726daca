-- ===== src/Vault/Build.antt =====
-- BuildRoutineSpend of poc/2fa-vault/internal/vault/tx.go.
use arkade_2fa_vault_poc.Prelude.{
  ℕ, Bool, true, not, ◌||◌, Option, some, List, [], ◌∷◌, length, get_elem?, ◌==◌, if◌then◌else◌,
}
use arkade_2fa_vault_poc.Prelude.Int.{ℤ, pos, ltb_ℤ, leb_ℤ, eq_ℤ}
use arkade_2fa_vault_poc.Prelude.Bytes.{bytes_eq}
use arkade_2fa_vault_poc.Prelude.Checks.{Checked, accepted, require, ◌>>=◌, ◌>>◌, from_option}
use arkade_2fa_vault_poc.Arkade.Packet.{Wire, EmulatorEntry, new_packet, serialize}
use arkade_2fa_vault_poc.Vault.{
  TxOut, OutPoint, TxIn, MsgTx, PInput, Psbt, Leaf, Built, Chain, VaultError, not_enrolled,
  script_required, not_segwit, prevout_required, prevout_hash_mismatch, prevout_out_of_range,
  prevout_script, invalid_amount, recipient_below_dust, change_below_dust, extension_failed,
  extension_value, psbt_failed, no_sighash,
}
use arkade_2fa_vault_poc.Vault.Money.{require_sats, remaining_after}
use arkade_2fa_vault_poc.Vault.Classify.{
  max_tx_in_sequence_num, sig_hash_default, base_leaf_version, from_parsed,
}

-- The vault stands apart; no transaction is nil.
pub record SpendParams (Witness : Type 0) : Type 0 where
  pub prev_tx : Option MsgTx
  pub prev_out_point : OutPoint
  pub recipient_script : List ℕ
  pub recipient_amount : ℤ
  pub fee : ℤ
  pub sequence : ℕ
  pub witness : Witness

pub record BuiltSpend : Type 0 where
  pub packet : Psbt
  pub challenge : List ℕ
  pub change_amount : ℤ
  pub has_change : Bool
  pub input_value : ℤ
  pub prevout : TxOut

abbrev pub or_final : ℕ → ℕ
or_final sequence = if sequence == 0 then max_tx_in_sequence_num else sequence

abbrev pub spend_input : OutPoint → ℕ → TxIn
spend_input op sequence = record { previous_out_point = op; sequence = or_final sequence }

abbrev pub output_of : ℤ → List ℕ → TxOut
output_of value script = record { value = value; pk_script = script }

-- The recipient, the change and the packet.
abbrev pub spend_tx : OutPoint → ℕ → TxOut → TxOut → TxOut → MsgTx
spend_tx op sequence recipient change packet = record {
  version = pos 2;
  lock_time = 0;
  tx_in = spend_input op sequence ∷ [];
  tx_out = recipient ∷ change ∷ packet ∷ [];
}

abbrev pub spend_record : Leaf → TxOut → MsgTx → PInput
spend_record routine prev prev_tx = record {
  witness_utxo = some (output_of prev.value prev.pk_script);
  sighash_type = sig_hash_default;
  taproot_leaf_script =
      some (record {
        control_block = routine.control_block;
        script = routine.script;
        leaf_version = base_leaf_version;
      })
      ∷ [];
  taproot_script_spend_sig = [];
  final_script_sig = [];
  final_script_witness = [];
  prevout_txs = some (prev_tx ∷ []);
}

abbrev pub spend_psbt : Leaf → TxOut → MsgTx → MsgTx → Psbt
spend_psbt routine prev prev_tx tx = record {
  unsigned_tx = tx;
  inputs = spend_record routine prev prev_tx ∷ [];
}

module _ {Witness : Type 0} (wire : Wire Witness) (chain : Chain) where
  unfoldable pub checked_prevout : Built → MsgTx → OutPoint → Checked VaultError TxOut
  checked_prevout v prev_tx op =
      require (bytes_eq (chain.tx_hash prev_tx) op.hash) prevout_hash_mismatch
      >> from_option prevout_out_of_range (get_elem? prev_tx.tx_out op.index)
      >>= λ prev.
          require (bytes_eq prev.pk_script v.pk_script) prevout_script
          >> require_sats prev.value
          >> accepted prev

  -- attachPacket, before it adds the output.
  unfoldable pub attach_packet : EmulatorEntry Witness → Checked VaultError TxOut
  attach_packet entry = from_parsed (new_packet (entry ∷ [])) >>= λ pkt.
      from_option extension_failed (chain.extension_tx_out (serialize wire pkt)) >>= λ out.
      require (eq_ℤ out.value (pos 0)) extension_value >> accepted out

  -- What is asked of the amounts: the change.
  unfoldable pub check_amounts : Built → SpendParams Witness → TxOut → Checked VaultError ℤ
  check_amounts v p prev =
      require (not (ltb_ℤ p.fee (pos 0) || leb_ℤ p.recipient_amount (pos 0))) invalid_amount
      >> require (not (ltb_ℤ p.recipient_amount v.authorization_policy.recipient_dust_sats))
          recipient_below_dust
      >> remaining_after prev.value p.recipient_amount p.fee
      >>= λ change.
          require (not (ltb_ℤ change v.authorization_policy.recipient_dust_sats)) change_below_dust
          >> accepted change

  unfoldable pub assemble :
      Built → SpendParams Witness → Leaf → MsgTx → TxOut → ℤ → Checked VaultError BuiltSpend
  unfolding attach_packet
  assemble v p routine prev_tx prev change =
      attach_packet (record { vin = 0; script = v.auth_script; witness = p.witness }) >>= λ out.
      (let tx =
          spend_tx p.prev_out_point p.sequence (output_of p.recipient_amount p.recipient_script)
            (output_of change v.pk_script) out in
        require (chain.new_from_unsigned_tx tx) psbt_failed
        >> require (chain.set_prevout_tx_field prev_tx) psbt_failed
        >> from_option no_sighash
            (chain.arkade_sighash tx (output_of prev.value prev.pk_script) routine.script)
        >>= λ challenge. accepted (record {
          packet = spend_psbt routine prev prev_tx tx;
          challenge = challenge;
          change_amount = change;
          has_change = true;
          input_value = prev.value;
          prevout = prev;
        }))

  unfoldable pub build_routine_spend : Built → SpendParams Witness → Checked VaultError BuiltSpend
  unfolding checked_prevout check_amounts assemble
  build_routine_spend v p = from_option not_enrolled v.routine >>= λ routine.
      require (not (length p.recipient_script == 0)) script_required
      >> require (chain.is_witness_program p.recipient_script) not_segwit
      >> from_option prevout_required p.prev_tx
      >>= λ prev_tx. checked_prevout v prev_tx p.prev_out_point >>= λ prev.
          check_amounts v p prev >>= λ change. assemble v p routine prev_tx prev change
