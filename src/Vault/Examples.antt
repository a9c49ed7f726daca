-- ===== src/Vault/Examples.antt =====
-- A routine spend of poc/2fa-vault/internal/vault, with one-byte counts and a constant hash.
use arkade_2fa_vault_poc.Prelude.{
  if◌then◌else◌, ℕ, refl, Bool, true, false, Option, none, some, List, [], ◌∷◌, ◌==◌,
}
use arkade_2fa_vault_poc.Prelude.Int.{pos}
use arkade_2fa_vault_poc.Prelude.Bytes.{bytes_eq}
use arkade_2fa_vault_poc.Codec.BigEndian.{fill_bytes}
use arkade_2fa_vault_poc.Vault.Partials.{
  verify_routine_partials, check_routine_leaf, take_signatures, take_signature, is_seen, assign,
  verify_taken, verify_schnorr_tap_sig,
}
use arkade_2fa_vault_poc.Vault.Complete.{IsComplete, verify_routine_partials-IsComplete}
use arkade_2fa_vault_poc.Arkade.Packet.{serialize}
use arkade_2fa_vault_poc.Arkade.Packet.Examples.{plain_wire}
use arkade_2fa_vault_poc.Arkade.Packet.Find.{Extension, not_found, bad_extension, found}
use arkade_2fa_vault_poc.Vault.{TxOut, MsgTx, TaprootScriptSpendSig, Psbt, Leaf, Built, Chain}
use arkade_2fa_vault_poc.Vault.Classify.{Classified, max_tx_in_sequence_num}
use arkade_2fa_vault_poc.Vault.Build.{SpendParams, BuiltSpend}

abbrev starts_with : ℕ → List ℕ → Bool
starts_with b [] = false
starts_with b (c ∷ script) = b == c

abbrev auth : List ℕ
auth = 0x51 ∷ []

abbrev packet_bytes : List ℕ
packet_bytes = serialize plain_wire (record { vin = 0; script = auth; witness = 3 ∷ [] } ∷ [])

abbrev read_extension : List ℕ → Option (List (ℕ × Option (List ℕ)))
read_extension [] = none
read_extension (b ∷ bytes) = some ((1, some bytes) ∷ [])

abbrev write_extension : List (ℕ × Option (List ℕ)) → Option (List ℕ)
write_extension ((kind, some bytes) ∷ []) = some (0x6a ∷ bytes)
write_extension ext = none

abbrev extension_of : Option (List (ℕ × Option (List ℕ))) → Extension
extension_of none = bad_extension
extension_of (some ext) = found ext

abbrev first_extension : List TxOut → Extension
first_extension [] = not_found
first_extension (o ∷ outs) =
    if starts_with 0x6a o.pk_script
    then extension_of (read_extension o.pk_script)
    else first_extension outs

abbrev extension_output : List ℕ → TxOut
extension_output bytes = record { value = pos 0; pk_script = 0x6a ∷ bytes }

abbrev chain : Chain
chain = record {
  tx_hash = λ tx. 7 ∷ [];
  is_witness_program = starts_with 0;
  is_unspendable = starts_with 0x6a;
  is_extension = starts_with 0x6a;
  new_extension_from_bytes = read_extension;
  serialize_extension = write_extension;
  new_extension_from_tx = λ tx. first_extension tx.tx_out;
  serialize_size_stripped = λ tx. 150;
  anchor_pk_script = 0x51 ∷ 0x4e ∷ [];
  tapscript_sighash = λ tx out script. some (9 ∷ []);
  extension_tx_out = λ bytes. some (extension_output bytes);
  new_from_unsigned_tx = λ tx. true;
  set_prevout_tx_field = λ tx. true;
  arkade_sighash = λ tx out script. some (8 ∷ []);
  schnorr_verify = λ signature key digest. true;
}

abbrev leaf : Leaf
leaf = record { script = 1 ∷ 2 ∷ []; control_block = 3 ∷ []; hash = 4 ∷ [] }

abbrev vault : Built
vault = record {
  authorization_policy = record {
    recipient_dust_sats = pos 330;
    recipient_cap_sats = pos 100000;
    absolute_fee_ceiling_sats = pos 1000;
    feerate_ceiling_sat_per_v = pos 10;
  };
  auth_script = auth;
  pk_script = 0x51 ∷ 0x20 ∷ [];
  routine = some leaf;
  phone_routine_bip340 = some (11 ∷ []);
  tweaked_vault_cosigner = some (12 ∷ []);
  tweaked_arkade_cosigner = some (13 ∷ []);
}

abbrev prevout : TxOut
prevout = record { value = pos 200000; pk_script = vault.pk_script }

abbrev prev_tx : MsgTx
prev_tx = record { version = pos 2; lock_time = 0; tx_in = []; tx_out = prevout ∷ [] }

abbrev payment : TxOut
payment = record { value = pos 50000; pk_script = 0 ∷ 0x14 ∷ [] }

abbrev spend : MsgTx
spend = record {
  version = pos 2;
  lock_time = 0;
  tx_in =
      record {
        previous_out_point = record { hash = 7 ∷ []; index = 0 };
        sequence = max_tx_in_sequence_num;
      }
      ∷ [];
  tx_out =
      payment
      ∷ record { value = pos 149500; pk_script = vault.pk_script }
      ∷ record { value = pos 0; pk_script = 0x6a ∷ packet_bytes }
      ∷ [];
}

abbrev ptx : Psbt
ptx = record {
  unsigned_tx = spend;
  inputs =
      record {
        witness_utxo = some prevout;
        sighash_type = 0;
        taproot_leaf_script =
            some (record { control_block = 3 ∷ []; script = 1 ∷ 2 ∷ []; leaf_version = 0xc0 }) ∷ [];
        taproot_script_spend_sig = [];
        final_script_sig = [];
        final_script_witness = [];
        prevout_txs = some (prev_tx ∷ []);
      }
      ∷ [];
}

abbrev classified : Classified
classified = record { recipient = payment; fee = pos 500; v_bytes = pos 201 }

abbrev signature_by : List ℕ → Option TaprootScriptSpendSig
signature_by key =
    some (record {
      x_only_pub_key = key;
      leaf_hash = 4 ∷ [];
      signature = fill_bytes 64 1;
      sig_hash = 0;
    })

abbrev signed_ptx : Psbt
signed_ptx = record {
  unsigned_tx = spend;
  inputs =
      record {
        witness_utxo = some prevout;
        sighash_type = 0;
        taproot_leaf_script =
            some (record { control_block = 3 ∷ []; script = 1 ∷ 2 ∷ []; leaf_version = 0xc0 }) ∷ [];
        taproot_script_spend_sig =
            signature_by (12 ∷ []) ∷ signature_by (11 ∷ []) ∷ signature_by (13 ∷ []) ∷ [];
        final_script_sig = [];
        final_script_witness = [];
        prevout_txs = some (prev_tx ∷ []);
      }
      ∷ [];
}

verify_routine_partials-IsComplete_example : IsComplete chain signed_ptx vault
unfolding verify_routine_partials bytes_eq fill_bytes check_routine_leaf take_signatures
    take_signature is_seen assign verify_taken verify_schnorr_tap_sig
verify_routine_partials-IsComplete_example =
    verify_routine_partials-IsComplete chain signed_ptx vault tt refl

abbrev params : SpendParams (List ℕ)
params = record {
  prev_tx = some prev_tx;
  prev_out_point = record { hash = 7 ∷ []; index = 0 };
  recipient_script = payment.pk_script;
  recipient_amount = pos 50000;
  fee = pos 500;
  sequence = 0;
  witness = 3 ∷ [];
}

abbrev built : BuiltSpend
built = record {
  packet = ptx;
  challenge = 8 ∷ [];
  change_amount = pos 149500;
  has_change = true;
  input_value = pos 200000;
  prevout = prevout;
}
