-- ===== src/Vault.antt =====
-- poc/2fa-vault/internal/vault/tx.go and provider/classify.go: the routine spends of a vault.
pub mod Money
pub mod Prevout
pub mod Classify
pub mod Shape
pub mod Amounts
pub mod Routine
pub mod Partials
pub mod Signed
pub mod Complete
pub mod Build
pub mod Agrees
pub mod Balanced
pub mod Assembled
pub mod Accepts
mod Examples
use arkade_2fa_vault_poc.Prelude.{ℕ, Bool, Option, List}
use arkade_2fa_vault_poc.Prelude.Int.{ℤ}
use arkade_2fa_vault_poc.Arkade.Packet.Find.{Extension}

-- Of wire: hashes and scripts are their bytes.
pub record TxOut : Type 0 where
  pub value : ℤ
  pub pk_script : List ℕ

pub record OutPoint : Type 0 where
  pub hash : List ℕ
  pub index : ℕ

pub record TxIn : Type 0 where
  pub previous_out_point : OutPoint
  pub sequence : ℕ

pub record MsgTx : Type 0 where
  pub version : ℤ
  pub lock_time : ℕ
  pub tx_in : List TxIn
  pub tx_out : List TxOut

-- Of psbt; a nil pointer is none.
pub record TaprootTapLeafScript : Type 0 where
  pub control_block : List ℕ
  pub script : List ℕ
  pub leaf_version : ℕ

pub record TaprootScriptSpendSig : Type 0 where
  pub x_only_pub_key : List ℕ
  pub leaf_hash : List ℕ
  pub signature : List ℕ
  pub sig_hash : ℕ

-- `prevout_txs` is what txutils reads from the PrevoutTxField of the input, none where that is an error.
pub record PInput : Type 0 where
  pub witness_utxo : Option TxOut
  pub sighash_type : ℕ
  pub taproot_leaf_script : List (Option TaprootTapLeafScript)
  pub taproot_script_spend_sig : List (Option TaprootScriptSpendSig)
  pub final_script_sig : List ℕ
  pub final_script_witness : List ℕ
  pub prevout_txs : Option (List MsgTx)

pub record Psbt : Type 0 where
  pub unsigned_tx : MsgTx
  pub inputs : List PInput

-- Leaf: one tapscript path.
pub record Leaf : Type 0 where
  pub script : List ℕ
  pub control_block : List ℕ
  pub hash : List ℕ

pub record AuthorizationPolicy : Type 0 where
  pub recipient_dust_sats : ℤ
  pub recipient_cap_sats : ℤ
  pub absolute_fee_ceiling_sats : ℤ
  pub feerate_ceiling_sat_per_v : ℤ

-- The parts of Built and of its Record that a spend reads. The three keys are their x-only bytes.
pub record Built : Type 0 where
  pub authorization_policy : AuthorizationPolicy
  pub auth_script : List ℕ
  pub pk_script : List ℕ
  pub routine : Option Leaf
  pub phone_routine_bip340 : Option (List ℕ)
  pub tweaked_vault_cosigner : Option (List ℕ)
  pub tweaked_arkade_cosigner : Option (List ℕ)

-- What the code takes from txscript, wire, txutils and ark-lib's extension. An extension packet has its type,
-- and its bytes where it is an UnknownPacket. `tapscript_sighash` is of the spend of an output by a leaf script,
-- `extension_tx_out` is the output of an extension of one emulator packet, `new_from_unsigned_tx` and
-- `set_prevout_tx_field` whether these calls succeed, `arkade_sighash` is CalcArkadeScriptSignatureHash of the
-- one input, and `schnorr_verify`, of a signature, an x-only key and a digest, parses both.
pub record Chain : Type 0 where
  pub tx_hash : MsgTx → List ℕ
  pub is_witness_program : List ℕ → Bool
  pub is_unspendable : List ℕ → Bool
  pub is_extension : List ℕ → Bool
  pub new_extension_from_bytes : List ℕ → Option (List (ℕ × Option (List ℕ)))
  pub serialize_extension : List (ℕ × Option (List ℕ)) → Option (List ℕ)
  pub new_extension_from_tx : MsgTx → Extension
  pub serialize_size_stripped : MsgTx → ℕ
  pub anchor_pk_script : List ℕ
  pub tapscript_sighash : MsgTx → TxOut → List ℕ → Option (List ℕ)
  pub extension_tx_out : List ℕ → Option TxOut
  pub new_from_unsigned_tx : MsgTx → Bool
  pub set_prevout_tx_field : MsgTx → Bool
  pub arkade_sighash : MsgTx → TxOut → List ℕ → Option (List ℕ)
  pub schnorr_verify : List ℕ → List ℕ → List ℕ → Bool

pub data VaultError : Type 0 where
  not_enrolled one_input_required witness_utxo_required bad_prevout_field prevout_required :
      VaultError
  prevout_hash_mismatch prevout_out_of_range prevout_mismatch : VaultError
  bad_version bad_lock_time bad_sequence bad_sighash foreign_input money_range : VaultError
  one_leaf_required wrong_leaf control_block_mismatch bad_leaf_version : VaultError
  multiple_extensions extension_value bad_extension non_canonical_extension bad_packet_count :
      VaultError
  bad_packet one_entry_required not_a_packet non_canonical_packet bad_vin : VaultError
  auth_script_mismatch packet_not_last multiple_change bad_change_index change_below_dust :
      VaultError
  multiple_recipients not_segwit unspendable anchor_recipient bad_recipient_index : VaultError
  recipient_below_dust missing_recipient missing_packet missing_change sum_overflow : VaultError
  negative_fee invalid_size above_cap fee_above_ceiling feerate_above_ceiling : VaultError
  outputs_exceed_input preexisting_script nil_signature duplicate_signature : VaultError
  wrong_leaf_hash duplicate_phone duplicate_vault duplicate_arkade unexpected_key : VaultError
  three_signatures_required signature_length no_sighash bad_signature : VaultError
  script_required prevout_script prevout_missing invalid_amount extension_failed psbt_failed :
      VaultError
