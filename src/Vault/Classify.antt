-- ===== src/Vault/Classify.antt =====
-- poc/2fa-vault/internal/provider/classify.go.
use arkade_2fa_vault_poc.Prelude.{
  ℕ, suc, ◌+◌, ◌-◌, ◌*◌, ◌/◌, ◌^◌, Bool, true, false, not, ◌&&◌, ◌||◌, Option, none, some, List, [],
  ◌∷◌, length, ltb, leb, ◌==◌, if◌then◌else◌,
}
use arkade_2fa_vault_poc.Prelude.Int.{ℤ, pos, ◌-ℤ◌, ◌*ℤ◌, ltb_ℤ, leb_ℤ, eq_ℤ, int64}
use arkade_2fa_vault_poc.Prelude.Bytes.{bytes_eq}
use arkade_2fa_vault_poc.Prelude.Checks.{
  Checked, accepted, refused, require, ◌>>=◌, ◌>>◌, from_option,
}
use arkade_2fa_vault_poc.Arkade.Packet
use arkade_2fa_vault_poc.Arkade.Packet.{Wire, EmulatorEntry, Parsed, parsed, new_packet, serialize}
use arkade_2fa_vault_poc.Arkade.Packet.Find.{packet_type, find_emulator_packet}
use arkade_2fa_vault_poc.Vault.{
  TxOut, TxIn, MsgTx, TaprootTapLeafScript, PInput, Psbt, Leaf, AuthorizationPolicy, Built, Chain,
  VaultError, not_enrolled, bad_version, bad_lock_time, bad_sequence, bad_sighash,
  witness_utxo_required, foreign_input, one_leaf_required, wrong_leaf, control_block_mismatch,
  bad_leaf_version, multiple_extensions, extension_value, bad_extension, non_canonical_extension,
  bad_packet_count, bad_packet, one_entry_required, not_a_packet, non_canonical_packet, bad_vin,
  auth_script_mismatch, packet_not_last, multiple_change, bad_change_index, change_below_dust,
  multiple_recipients, not_segwit, unspendable, anchor_recipient, bad_recipient_index,
  recipient_below_dust, missing_recipient, missing_packet, missing_change, negative_fee,
  invalid_size, above_cap, fee_above_ceiling, feerate_above_ceiling,
}
use arkade_2fa_vault_poc.Vault.Money.{require_sats, sum_outputs}
use arkade_2fa_vault_poc.Vault.Prevout.{only_input, require_verified_prevout}

pub record Classified : Type 0 where
  pub recipient : TxOut
  pub fee : ℤ
  pub v_bytes : ℤ

-- wire.MaxTxInSequenceNum.
abbrev pub max_tx_in_sequence_num : ℕ
max_tx_in_sequence_num = 2 ^ 32 - 1

-- txscript.SigHashDefault.
abbrev pub sig_hash_default : ℕ
sig_hash_default = 0

-- txscript.BaseLeafVersion.
abbrev pub base_leaf_version : ℕ
base_leaf_version = 0xc0

-- The variables that the loop over the outputs sets.
pub record Found : Type 0 where
  pub recipient : Option TxOut
  pub change : Option TxOut
  pub packet : Option TxOut

abbrev pub is_nil {ℓ} : {A : Type ℓ} → Option A → Bool
is_nil none = true
is_nil (some a) = false

abbrev pub is_op_return : List ℕ → Bool
is_op_return [] = false
is_op_return (b ∷ pk) = b == 0x6a

abbrev pub is_bytes : Option (List ℕ) → List ℕ → Bool
is_bytes none bytes = false
is_bytes (some raw) bytes = bytes_eq raw bytes

abbrev pub varint_size : ℕ → ℕ
varint_size n =
    if ltb n 0xfd then 1 else if leb n 0xffff then 3 else if leb n 0xffffffff then 5 else 9

unfoldable pub estimated_witness_bytes : Leaf → ℕ
estimated_witness_bytes routine =
    2
    + varint_size 5
    + (varint_size 64 + 64)
    + (varint_size 64 + 64)
    + (varint_size 64 + 64)
    + varint_size (length routine.script)
    + length routine.script
    + varint_size (length routine.control_block)
    + length routine.control_block

-- The one packet of an extension: its bytes, if it has them.
abbrev pub one_packet : List (ℕ × Option (List ℕ)) → Checked VaultError (Option (List ℕ))
one_packet ((kind, bytes) ∷ []) =
    if kind == packet_type then accepted bytes else refused bad_packet_count
one_packet [] = refused bad_packet_count
one_packet (p ∷ q ∷ ext) = refused bad_packet_count

abbrev pub from_parsed : {A : Type 0} → Parsed A → Checked VaultError A
from_parsed (parsed a) = accepted a
from_parsed (Packet.refused e) = refused bad_packet

module _ {Witness : Type 0} where
  abbrev pub one_entry :
      Parsed (Option (List (EmulatorEntry Witness))) → Checked VaultError (EmulatorEntry Witness)
  one_entry (parsed (some (entry ∷ []))) = accepted entry
  one_entry (parsed (some (entry ∷ other ∷ p))) = refused one_entry_required
  one_entry (parsed (some [])) = refused one_entry_required
  one_entry (parsed none) = refused one_entry_required
  one_entry (Packet.refused e) = refused bad_packet

abbrev pub only_leaf : List (Option TaprootTapLeafScript) → Checked VaultError TaprootTapLeafScript
only_leaf (some leaf ∷ []) = accepted leaf
only_leaf (none ∷ []) = refused one_leaf_required
only_leaf [] = refused one_leaf_required
only_leaf (leaf ∷ other ∷ leaves) = refused one_leaf_required

-- The input and its leaf: its value.
unfoldable pub check_input : Built → Leaf → TxIn × PInput → Checked VaultError ℤ
check_input op routine (txin, input) =
    require (txin.sequence == max_tx_in_sequence_num) bad_sequence
    >> require (input.sighash_type == sig_hash_default) bad_sighash
    >> from_option witness_utxo_required input.witness_utxo
    >>= λ utxo.
        require (bytes_eq utxo.pk_script op.pk_script) foreign_input
        >> require_sats utxo.value
        >> only_leaf input.taproot_leaf_script
        >>= λ leaf.
            require (bytes_eq leaf.script routine.script) wrong_leaf
            >> require (bytes_eq leaf.control_block routine.control_block) control_block_mismatch
            >> require (leaf.leaf_version == base_leaf_version) bad_leaf_version
            >> accepted utxo.value

unfoldable pub enforce_static_policy :
    Classified → AuthorizationPolicy → Checked VaultError (Unit {0})
enforce_static_policy cl policy =
    require (not (ltb_ℤ policy.recipient_cap_sats cl.recipient.value)) above_cap
    >> require (not (ltb_ℤ policy.absolute_fee_ceiling_sats cl.fee)) fee_above_ceiling
    >> require (not (leb_ℤ cl.v_bytes (pos 0))) invalid_size
    >> require (not (ltb_ℤ (int64 (policy.feerate_ceiling_sat_per_v *ℤ cl.v_bytes)) cl.fee))
        feerate_above_ceiling

abbrev pub nothing_found : Found
nothing_found = record { recipient = none; change = none; packet = none }

module _ {Witness : Type 0} (wire : Wire Witness) (chain : Chain) where
  unfoldable pub estimated_full_size : MsgTx → Leaf → ℕ
  unfolding estimated_witness_bytes
  estimated_full_size tx routine =
      chain.serialize_size_stripped tx + estimated_witness_bytes routine

  unfoldable pub estimated_weight : MsgTx → Leaf → ℕ
  unfolding estimated_full_size
  estimated_weight tx routine =
      chain.serialize_size_stripped tx * 3 + estimated_full_size tx routine

  unfoldable pub estimated_v_bytes : MsgTx → Leaf → ℤ
  unfolding estimated_weight
  estimated_v_bytes tx routine = int64 (pos ((estimated_weight tx routine + 3) / 4))

  -- The packet output: what is checked before it is taken.
  unfoldable pub check_packet : MsgTx → Built → TxOut → Checked VaultError (EmulatorEntry Witness)
  check_packet tx op out =
      from_option bad_extension (chain.new_extension_from_bytes out.pk_script) >>= λ ext.
      require (is_bytes (chain.serialize_extension ext) out.pk_script) non_canonical_extension
      >> one_packet ext
      >>= λ kept.
          one_entry (find_emulator_packet wire (length tx.tx_in) (chain.new_extension_from_tx tx))
          >>= λ entry. from_option not_a_packet kept >>= λ bytes.
              from_parsed (new_packet (entry ∷ [])) >>= λ rebuilt.
              require (bytes_eq (serialize wire rebuilt) bytes) non_canonical_packet
              >> require (entry.vin == 0) bad_vin
              >> require (bytes_eq entry.script op.auth_script) auth_script_mismatch
              >> accepted entry

  -- The three cases of the switch, for the output at an index.
  unfoldable pub packet_output : MsgTx → Built → ℕ → TxOut → Found → Checked VaultError Found
  unfolding check_packet
  packet_output tx op index out found =
      require (is_nil found.packet) multiple_extensions
      >> require (eq_ℤ out.value (pos 0)) extension_value
      >> check_packet tx op out
      >>= λ _.
          require (index == length tx.tx_out - 1) packet_not_last
          >> accepted (record found { packet = some out })

  unfoldable pub change_output : MsgTx → Built → ℕ → TxOut → Found → Checked VaultError Found
  change_output tx op index out found =
      require (is_nil found.change) multiple_change
      >> require ((index == 1) && (length tx.tx_out == 3)) bad_change_index
      >> require (not (ltb_ℤ out.value op.authorization_policy.recipient_dust_sats))
          change_below_dust
      >> accepted (record found { change = some out })

  unfoldable pub recipient_output : Built → ℕ → TxOut → Found → Checked VaultError Found
  recipient_output op index out found =
      require (is_nil found.recipient) multiple_recipients
      >> require (chain.is_witness_program out.pk_script) not_segwit
      >> require (not (chain.is_unspendable out.pk_script || is_op_return out.pk_script))
          unspendable
      >> require (not (bytes_eq out.pk_script chain.anchor_pk_script)) anchor_recipient
      >> require (index == 0) bad_recipient_index
      >> require (not (ltb_ℤ out.value op.authorization_policy.recipient_dust_sats))
          recipient_below_dust
      >> accepted (record found { recipient = some out })

  unfoldable pub classify_output : MsgTx → Built → ℕ → TxOut → Found → Checked VaultError Found
  unfolding packet_output change_output recipient_output
  classify_output tx op index out found =
      if chain.is_extension out.pk_script
      then packet_output tx op index out found
      else if bytes_eq out.pk_script op.pk_script
      then change_output tx op index out found
      else recipient_output op index out found

  -- The loop over the outputs from an index.
  unfoldable pub classify_outputs :
      MsgTx → Built → ℕ → List TxOut → Found → Checked VaultError Found
  unfolding classify_output
  classify_outputs tx op index [] found = accepted found
  classify_outputs tx op index (out ∷ outs) found =
      classify_output tx op index out found >>= λ next. classify_outputs tx op (suc index) outs next

  -- Behind the loop: the fee and the size.
  unfoldable pub classify_amounts : MsgTx → Leaf → ℤ → Found → Checked VaultError Classified
  unfolding estimated_v_bytes
  classify_amounts tx routine input found =
      from_option missing_recipient found.recipient >>= λ recipient.
      require (not (is_nil found.packet)) missing_packet
      >> require (not (is_nil found.change)) missing_change
      >> sum_outputs (pos 0) tx.tx_out
      >>= λ out_sum.
          require (not (ltb_ℤ (int64 (input -ℤ out_sum)) (pos 0))) negative_fee
          >> require (not (leb_ℤ (estimated_v_bytes tx routine) (pos 0))) invalid_size
          >> accepted (record {
            recipient = recipient;
            fee = int64 (input -ℤ out_sum);
            v_bytes = estimated_v_bytes tx routine;
          })

  unfoldable pub classify : Psbt → Built → Checked VaultError Classified
  unfolding check_input classify_outputs classify_amounts
  classify ptx op = from_option not_enrolled op.routine >>= λ routine.
      require_verified_prevout chain ptx >>= λ _.
      require (eq_ℤ ptx.unsigned_tx.version (pos 2)) bad_version
      >> require (ptx.unsigned_tx.lock_time == 0) bad_lock_time
      >> only_input ptx
      >>= λ one. check_input op routine one >>= λ input.
          classify_outputs ptx.unsigned_tx op 0 ptx.unsigned_tx.tx_out nothing_found >>= λ found.
          classify_amounts ptx.unsigned_tx routine input found

  unfoldable pub classify_spend : Psbt → Built → Checked VaultError Classified
  unfolding classify enforce_static_policy
  classify_spend ptx op =
      classify ptx op >>= λ cl. enforce_static_policy cl op.authorization_policy >> accepted cl
