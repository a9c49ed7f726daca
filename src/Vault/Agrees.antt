-- ===== src/Vault/Agrees.antt =====
-- What BuildRoutineSpend of poc/2fa-vault/internal/vault/tx.go builds, classify of
-- poc/2fa-vault/internal/provider/classify.go takes: the outputs.
use arkade_2fa_vault_poc.Prelude.{
  ℕ, ◌≡◌, refl, ap, ◌∙◌, true, false, not, ◌||◌, Option, none, some, List, [], ◌∷◌, ◌==◌, arith,
}
use arkade_2fa_vault_poc.Prelude.Int.{pos, ltb_ℤ, eq_ℤ}
use arkade_2fa_vault_poc.Prelude.Bytes.{bytes_eq, bytes_eq_refl}
use arkade_2fa_vault_poc.Prelude.Checks.{
  accepted, from_option, accepted-eq, >>=-accepted, require-accepted, from_option-accepted,
}
use arkade_2fa_vault_poc.Arkade.Packet.{
  Wire, EmulatorEntry, parsed, PacketError, validate, valid_or, new_packet, serialize,
}
use arkade_2fa_vault_poc.Arkade.Packet.Find.{
  found, packet_type, check_vins, scan, find_emulator_packet,
}
use arkade_2fa_vault_poc.Arkade.Packet.RoundTrip.{WireLaws, Fits, deserialize-serialize}
use arkade_2fa_vault_poc.Vault.{
  TxOut, OutPoint, MsgTx, Built, Chain, extension_failed, extension_value,
}
use arkade_2fa_vault_poc.Vault.Classify.{
  from_parsed, is_op_return, check_packet, packet_output, change_output, recipient_output,
  classify_output, classify_outputs, nothing_found,
}
use arkade_2fa_vault_poc.Vault.Build.{spend_tx, attach_packet}

-- What is documented of ark-lib's extensions: the output of a packet is an extension that is read back and
-- written the same, and a transaction's extension is that of its first extension output.
pub record ExtensionLaws (chain : Chain) : Type 0 where
  pub marked :
      (bytes : List ℕ) (out : TxOut)
      → chain.extension_tx_out bytes ≡ some out
      → chain.is_extension out.pk_script ≡ true
  pub read_back :
      (bytes : List ℕ) (out : TxOut)
      → chain.extension_tx_out bytes ≡ some out
      → chain.new_extension_from_bytes out.pk_script ≡ some ((packet_type, some bytes) ∷ [])
  pub written :
      (bytes : List ℕ) (out : TxOut)
      → chain.extension_tx_out bytes ≡ some out
      → chain.serialize_extension ((packet_type, some bytes) ∷ []) ≡ some out.pk_script
  pub from_tx :
      (tx : MsgTx) (a b out : TxOut) (ext : List (ℕ × Option (List ℕ)))
      → tx.tx_out ≡ a ∷ b ∷ out ∷ []
      → chain.is_extension a.pk_script ≡ false
      → chain.is_extension b.pk_script ≡ false
      → chain.is_extension out.pk_script ≡ true
      → chain.new_extension_from_bytes out.pk_script ≡ some ext
      → chain.new_extension_from_tx tx ≡ found ext

-- The output that attachPacket adds.
pub record IsAttached {Witness : Type 0} (wire : Wire Witness) (chain : Chain)
    (entry : EmulatorEntry Witness) (out : TxOut) : Type 0 where
  pub valid : validate (entry ∷ []) ≡ none
  pub output : chain.extension_tx_out (serialize wire (entry ∷ [])) ≡ some out
  pub value : eq_ℤ out.value (pos 0) ≡ true

new_packet-accepted :
    {Witness : Type 0} (p pkt : List (EmulatorEntry Witness))
    → from_parsed (new_packet p) ≡ accepted pkt
    → (validate p ≡ none) × (p ≡ pkt)
unfolding new_packet
new_packet-accepted p pkt h = go (validate p) refl h
  where
    go :
        (o : Option PacketError)
        → validate p ≡ o
        → from_parsed (valid_or o p) ≡ accepted pkt
        → (validate p ≡ none) × (p ≡ pkt)
    go none valid made = (valid, accepted-eq p pkt made)
    go (some e) valid made = cc made

pub attach_packet-IsAttached :
    {Witness : Type 0} (wire : Wire Witness) (chain : Chain) (entry : EmulatorEntry Witness)
    (out : TxOut)
    → attach_packet wire chain entry ≡ accepted out
    → IsAttached wire chain entry out
unfolding attach_packet
attach_packet-IsAttached {Witness} wire chain entry out h =
    let (pkt, made, h1) = >>=-accepted (from_parsed (new_packet (entry ∷ []))) _ out h in
    let (valid, same) = new_packet-accepted (entry ∷ []) pkt made in
    let output = chain.extension_tx_out (serialize wire pkt) in
    let (o, some_o, h2) = >>=-accepted (from_option extension_failed output) _ out h1 in
    let (value, h3) = require-accepted (eq_ℤ o.value (pos 0)) extension_value _ out h2 in
    let is_out = accepted-eq o out h3 in
    let written = from_option-accepted extension_failed output o some_o in
    record {
      valid = valid;
      output =
          ap (λ (p : List (EmulatorEntry Witness)). chain.extension_tx_out (serialize wire p)) same
          ∙ written
          ∙ ap (λ (x : TxOut). some x) is_out;
      value = rw (← is_out) value;
    }

-- What a recipient and the vault's own script must be for classify.
pub record IsPlain (chain : Chain) (v : Built) (recipient : TxOut) : Type 0 where
  pub segwit : chain.is_witness_program recipient.pk_script ≡ true
  pub spendable :
      (chain.is_unspendable recipient.pk_script || is_op_return recipient.pk_script) ≡ false
  pub not_anchor : bytes_eq recipient.pk_script chain.anchor_pk_script ≡ false
  pub not_extension : chain.is_extension recipient.pk_script ≡ false
  pub foreign : bytes_eq recipient.pk_script v.pk_script ≡ false
  pub vault_not_extension : chain.is_extension v.pk_script ≡ false

module _ {Witness : Type 0} (wire : Wire Witness) (laws : WireLaws wire) (chain : Chain)
    (ext_laws : ExtensionLaws chain) where
  find_built :
      (entry : EmulatorEntry Witness)
      → entry.vin ≡ 0
      → validate (entry ∷ []) ≡ none
      → Fits wire laws 0 (entry ∷ [])
      → find_emulator_packet wire 1 (found ((packet_type, some (serialize wire (entry ∷ []))) ∷ []))
        ≡ parsed (some (entry ∷ []))
  unfolding find_emulator_packet scan check_vins
  find_built entry first valid fits =
      let read = deserialize-serialize wire laws (entry ∷ []) fits valid in rw (read, first) refl

  check_packet_built :
      (v : Built) (op : OutPoint) (sequence : ℕ) (recipient change out : TxOut)
      (entry : EmulatorEntry Witness)
      → entry.vin ≡ 0
      → entry.script ≡ v.auth_script
      → Fits wire laws 0 (entry ∷ [])
      → IsAttached wire chain entry out
      → chain.is_extension recipient.pk_script ≡ false
      → chain.is_extension change.pk_script ≡ false
      → check_packet wire chain (spend_tx op sequence recipient change out) v out ≡ accepted entry
  unfolding check_packet new_packet
  check_packet_built v op sequence recipient change out entry first script fits at plain
        plain_change =
      let bytes = serialize wire (entry ∷ []) in
      let read = ext_laws.read_back bytes out at.output in
      let written = ext_laws.written bytes out at.output in
      let marked = ext_laws.marked bytes out at.output in
      let from_tx =
        ext_laws.from_tx (spend_tx op sequence recipient change out) recipient change out _ refl
          plain plain_change marked read in
      let is_first : (entry.vin == 0) ≡ true = ground (arith, first) in
      let authorized : bytes_eq entry.script v.auth_script ≡ true =
        rw script (bytes_eq_refl v.auth_script) in
      rw
        (
          read,
          written,
          bytes_eq_refl out.pk_script,
          from_tx,
          find_built entry first at.valid fits,
          at.valid,
          bytes_eq_refl bytes,
          is_first,
          authorized,
        )
        refl

  -- The loop finds the three outputs.
  pub classify_outputs_built :
      (v : Built) (op : OutPoint) (sequence : ℕ) (recipient change out : TxOut)
      (entry : EmulatorEntry Witness)
      → entry.vin ≡ 0
      → entry.script ≡ v.auth_script
      → Fits wire laws 0 (entry ∷ [])
      → IsAttached wire chain entry out
      → IsPlain chain v recipient
      → change.pk_script ≡ v.pk_script
      → not (ltb_ℤ recipient.value v.authorization_policy.recipient_dust_sats) ≡ true
      → not (ltb_ℤ change.value v.authorization_policy.recipient_dust_sats) ≡ true
      → (let tx = spend_tx op sequence recipient change out in
          classify_outputs wire chain tx v 0 tx.tx_out nothing_found
          ≡ accepted
              (record { recipient = some recipient; change = some change; packet = some out }))
  unfolding classify_outputs classify_output packet_output change_output recipient_output
  classify_outputs_built v op sequence recipient change out entry first script fits at plain same
        above above_change =
      let change_plain : chain.is_extension change.pk_script ≡ false =
        ap (λ (s : List ℕ). chain.is_extension s) same ∙ plain.vault_not_extension in
      let to_vault : bytes_eq change.pk_script v.pk_script ≡ true =
        ap (λ (s : List ℕ). bytes_eq s v.pk_script) same ∙ bytes_eq_refl v.pk_script in
      let marked = ext_laws.marked (serialize wire (entry ∷ [])) out at.output in
      let packet =
        check_packet_built v op sequence recipient change out entry first script fits at
          plain.not_extension change_plain in
      rw
        (
          plain.not_extension, plain.foreign, plain.segwit, plain.spendable, plain.not_anchor,
          above, change_plain, to_vault, above_change, marked, at.value, packet,
        )
        refl
