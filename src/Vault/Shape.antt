-- ===== src/Vault/Shape.antt =====
-- The shape of a transaction that classify of poc/2fa-vault/internal/provider/classify.go takes.
use arkade_2fa_vault_poc.Prelude.{
  ℕ, suc, ◌-◌, ◌≡◌, ◌≢◌, refl, ◌∙◌, true, false, not, ◌&&◌, ◌||◌, Option, none, some, List, [], ◌∷◌,
  length, ◌==◌, Bool-cases, inl, inr, and_true, arith,
}
use arkade_2fa_vault_poc.Prelude.Int.{pos, ◌≤ℤ◌, ltb_ℤ, eq_ℤ}
use arkade_2fa_vault_poc.Prelude.Bytes.{bytes_eq, bytes_eq_iff}
use arkade_2fa_vault_poc.Prelude.Checks.{accepted, >>=-accepted, require-accepted}
use arkade_2fa_vault_poc.Arkade.Packet.{Wire, EmulatorEntry}
use arkade_2fa_vault_poc.Vault.{
  TxOut, MsgTx, Built, Chain, multiple_extensions, extension_value, packet_not_last,
  multiple_change, bad_change_index, change_below_dust, multiple_recipients, not_segwit,
  unspendable, anchor_recipient, bad_recipient_index, recipient_below_dust,
}
use arkade_2fa_vault_poc.Vault.Classify.{
  Found, is_nil, is_op_return, check_packet, packet_output, change_output, recipient_output,
  classify_output, classify_outputs,
}

module _ {Witness : Type 0} (wire : Wire Witness) (chain : Chain) (tx : MsgTx) (op : Built) where
  pub record IsPacketOutput (out : TxOut) : Type 0 where
    pub value : out.value ≡ pos 0
    pub entry : EmulatorEntry Witness
    pub checked : check_packet wire chain tx op out ≡ accepted entry

  pub record IsRecipient (out : TxOut) : Type 0 where
    pub segwit : chain.is_witness_program out.pk_script ≡ true
    pub foreign : bytes_eq out.pk_script op.pk_script ≡ false
    pub above_dust : op.authorization_policy.recipient_dust_sats ≤ℤ out.value

  pub record IsChange (out : TxOut) : Type 0 where
    pub same_vault : out.pk_script ≡ op.pk_script
    pub above_dust : op.authorization_policy.recipient_dust_sats ≤ℤ out.value

  -- What one round of the loop does: each kind of output has one place.
  pub data IsRound (index : ℕ) (out : TxOut) (found next : Found) : Type 0 where
    packet_round :
        index ≡ length tx.tx_out - 1
        → IsPacketOutput out
        → next ≡ record found { packet = some out }
        → IsRound index out found next
    change_round :
        index ≡ 1
        → length tx.tx_out ≡ 3
        → IsChange out
        → next ≡ record found { change = some out }
        → IsRound index out found next
    recipient_round :
        index ≡ 0
        → IsRecipient out
        → next ≡ record found { recipient = some out }
        → IsRound index out found next

  packet_output-IsRound :
      (index : ℕ) (out : TxOut) (found next : Found)
      → packet_output wire chain tx op index out found ≡ accepted next
      → IsRound index out found next
  unfolding packet_output
  packet_output-IsRound index out found next h =
      let (_, h1) = require-accepted (is_nil found.packet) multiple_extensions _ next h in
      let (zero_value, h2) = require-accepted (eq_ℤ out.value (pos 0)) extension_value _ next h1 in
      let (entry, checked, h3) = >>=-accepted (check_packet wire chain tx op out) _ next h2 in
      let (last, h4) = require-accepted (index == length tx.tx_out - 1) packet_not_last _ next h3 in
      packet_round (ground (arith, last))
        (record { value = ground (arith, zero_value); entry = entry; checked = checked }) (cc h4)

  change_output-IsRound :
      (index : ℕ) (out : TxOut) (found next : Found)
      → bytes_eq out.pk_script op.pk_script ≡ true
      → change_output wire chain tx op index out found ≡ accepted next
      → IsRound index out found next
  unfolding change_output
  change_output-IsRound index out found next same h =
      let dust = op.authorization_policy.recipient_dust_sats in
      let (_, h1) = require-accepted (is_nil found.change) multiple_change _ next h in
      let (place, h2) =
        require-accepted ((index == 1) && (length tx.tx_out == 3)) bad_change_index _ next h1 in
      let (above, h3) = require-accepted (not (ltb_ℤ out.value dust)) change_below_dust _ next h2 in
      let (first, three) = and_true (index == 1) (length tx.tx_out == 3) place in
      change_round (ground (arith, first)) (ground (arith, three))
        (record {
          same_vault = (bytes_eq_iff out.pk_script op.pk_script).0 same;
          above_dust = ground (arith, above);
        })
        (cc h3)

  recipient_output-IsRound :
      (index : ℕ) (out : TxOut) (found next : Found)
      → bytes_eq out.pk_script op.pk_script ≡ false
      → recipient_output wire chain op index out found ≡ accepted next
      → IsRound index out found next
  unfolding recipient_output
  recipient_output-IsRound index out found next foreign h =
      let dust = op.authorization_policy.recipient_dust_sats in
      let (_, h1) = require-accepted (is_nil found.recipient) multiple_recipients _ next h in
      let (segwit, h2) =
        require-accepted (chain.is_witness_program out.pk_script) not_segwit _ next h1 in
      let (_, h3) =
        require-accepted (not (chain.is_unspendable out.pk_script || is_op_return out.pk_script))
          unspendable _ next h2 in
      let (_, h4) =
        require-accepted (not (bytes_eq out.pk_script chain.anchor_pk_script)) anchor_recipient _
          next h3 in
      let (place, h5) = require-accepted (index == 0) bad_recipient_index _ next h4 in
      let (above, h6) =
        require-accepted (not (ltb_ℤ out.value dust)) recipient_below_dust _ next h5 in
      recipient_round (ground (arith, place))
        (record { segwit = segwit; foreign = foreign; above_dust = ground (arith, above) }) (cc h6)

  pub classify_output-IsRound :
      (index : ℕ) (out : TxOut) (found next : Found)
      → classify_output wire chain tx op index out found ≡ accepted next
      → IsRound index out found next
  unfolding classify_output
  classify_output-IsRound index out found next h =
      elim (Bool-cases (chain.is_extension out.pk_script)) [
        | inl ext ↦
            let taken : packet_output wire chain tx op index out found ≡ accepted next =
              rw ext at h in
            packet_output-IsRound index out found next taken
        | inr plain ↦ elim (Bool-cases (bytes_eq out.pk_script op.pk_script)) [
          | inl same ↦
              let taken : change_output wire chain tx op index out found ≡ accepted next =
                rw (plain, same) at h in
              change_output-IsRound index out found next same taken
          | inr other ↦
              let taken : recipient_output wire chain op index out found ≡ accepted next =
                rw (plain, other) at h in
              recipient_output-IsRound index out found next other taken
        ]
      ]

  -- Where the transaction has not three outputs, the loop finds no change.
  pub no_change :
      (index : ℕ) (outs : List TxOut) (found next : Found)
      → length tx.tx_out ≢ 3
      → found.change ≡ none
      → classify_outputs wire chain tx op index outs found ≡ accepted next
      → next.change ≡ none
  unfolding classify_outputs
  no_change index [] found next other empty h = let same : found ≡ next = cc h in rw (← same) empty
  no_change index (out ∷ outs) found next other empty h =
      let (after, one, rest) =
        >>=-accepted (classify_output wire chain tx op index out found) _ next h in
      let kept : after.change ≡ none = elim (classify_output-IsRound index out found after one) [
        | packet_round _ _ same ↦ rw same empty
        | change_round _ three _ _ ↦ absurd (other three)
        | recipient_round _ _ same ↦ rw same empty
      ] in
      no_change (suc index) outs after next other kept rest

  first_round :
      (out : TxOut) (found next : Found)
      → length tx.tx_out ≡ 3
      → IsRound 0 out found next
      → IsRecipient out × (next.recipient ≡ some out)
  first_round out found next three (packet_round last _ _) = absurd (omega (arith, three, last))
  first_round out found next three (change_round one _ _ _) = absurd (omega (arith, one))
  first_round out found next three (recipient_round _ is same) = (is, rw same refl)

  second_round :
      (out : TxOut) (found next : Found)
      → length tx.tx_out ≡ 3
      → IsRound 1 out found next
      → IsChange out × (next.recipient ≡ found.recipient)
  second_round out found next three (packet_round last _ _) = absurd (omega (arith, three, last))
  second_round out found next three (change_round _ _ is same) = (is, rw same refl)
  second_round out found next three (recipient_round zero_index _ _) =
      absurd (omega (arith, zero_index))

  third_round :
      (out : TxOut) (found next : Found)
      → length tx.tx_out ≡ 3
      → IsRound 2 out found next
      → IsPacketOutput out × (next.recipient ≡ found.recipient)
  third_round out found next three (packet_round _ is same) = (is, rw same refl)
  third_round out found next three (change_round one _ _ _) = absurd (omega (arith, one))
  third_round out found next three (recipient_round zero_index _ _) =
      absurd (omega (arith, zero_index))

  -- A recipient, change to the vault and the packet, in this order.
  pub record IsShape (outs : List TxOut) (recipient : Option TxOut) : Type 0 where
    pub first : TxOut
    pub second : TxOut
    pub third : TxOut
    pub outputs : outs ≡ first ∷ second ∷ third ∷ []
    pub is_recipient : IsRecipient first
    pub is_change : IsChange second
    pub is_packet : IsPacketOutput third
    pub found : recipient ≡ some first

  pub three-IsShape :
      (outs : List TxOut) (start next : Found)
      → length tx.tx_out ≡ 3
      → length outs ≡ 3
      → classify_outputs wire chain tx op 0 outs start ≡ accepted next
      → IsShape outs next.recipient
  unfolding classify_outputs
  three-IsShape [] start next three count h = absurd (omega (arith, count))
  three-IsShape (a ∷ []) start next three count h = absurd (omega (arith, count))
  three-IsShape (a ∷ b ∷ []) start next three count h = absurd (omega (arith, count))
  three-IsShape (a ∷ b ∷ c ∷ d ∷ outs) start next three count h = absurd (omega (arith, count))
  three-IsShape (a ∷ b ∷ c ∷ []) start next three count h =
      let (s₁, one, h1) = >>=-accepted (classify_output wire chain tx op 0 a start) _ next h in
      let (s₂, two, h2) = >>=-accepted (classify_output wire chain tx op 1 b s₁) _ next h1 in
      let (s₃, last, h3) = >>=-accepted (classify_output wire chain tx op 2 c s₂) _ next h2 in
      let (is_a, found_a) =
        first_round a start s₁ three (classify_output-IsRound 0 a start s₁ one) in
      let (is_b, kept_b) = second_round b s₁ s₂ three (classify_output-IsRound 1 b s₁ s₂ two) in
      let (is_c, kept_c) = third_round c s₂ s₃ three (classify_output-IsRound 2 c s₂ s₃ last) in
      let same : s₃ ≡ next = cc h3 in
      record {
        first = a;
        second = b;
        third = c;
        outputs = refl;
        is_recipient = is_a;
        is_change = is_b;
        is_packet = is_c;
        found = rw (← same) (kept_c ∙ kept_b ∙ found_a);
      }

  -- Where a change was found, all three are.
  pub classify_outputs-IsShape :
      (start next : Found)
      → start.change ≡ none
      → not (is_nil next.change) ≡ true
      → classify_outputs wire chain tx op 0 tx.tx_out start ≡ accepted next
      → IsShape tx.tx_out next.recipient
  classify_outputs-IsShape start next empty changed h = elim (Bool-cases (length tx.tx_out == 3)) [
    | inl three ↦
        let count : length tx.tx_out ≡ 3 = ground (arith, three) in
        three-IsShape tx.tx_out start next count count h
    | inr other ↦
        let none_found =
          no_change 0 tx.tx_out start next (λ count. ground (arith, other, count)) empty h in
        let wrong : false ≡ true = rw none_found at changed in cc wrong
  ]
