-- ===== src/Vault/Assembled.antt =====
-- What BuildRoutineSpend of poc/2fa-vault/internal/vault/tx.go has made, and its input before classify of
-- poc/2fa-vault/internal/provider/classify.go.
use arkade_2fa_vault_poc.Prelude.{
  ℕ, ◌+◌, ◌/◌, ◌^◌, ◌<◌, ◌≡◌, refl, ap, sym, true, not, ◌||◌, some, [], ◌∷◌, length, get_elem?,
  ◌==◌, arith,
}
use arkade_2fa_vault_poc.Prelude.Int.{ℤ, pos, ltb_ℤ, leb_ℤ, eq_ℤ, IsInt64, int64-eq_of_IsInt64}
use arkade_2fa_vault_poc.Prelude.Bytes.{bytes_eq, bytes_eq_refl}
use arkade_2fa_vault_poc.Prelude.Checks.{
  accepted, from_option, accepted-eq, >>=-accepted, require-accepted, from_option-accepted,
}
use arkade_2fa_vault_poc.Arkade.Packet.{Wire, EmulatorEntry}
use arkade_2fa_vault_poc.Vault.{
  TxOut, OutPoint, MsgTx, Leaf, Built, Chain, not_enrolled, script_required, not_segwit,
  prevout_required, prevout_hash_mismatch, prevout_out_of_range, prevout_script, invalid_amount,
  recipient_below_dust, change_below_dust, psbt_failed, no_sighash,
}
use arkade_2fa_vault_poc.Vault.Money.{require_sats, remaining_after, IsMoney}
use arkade_2fa_vault_poc.Vault.Prevout.{require_verified_prevout}
use arkade_2fa_vault_poc.Vault.Classify.{
  max_tx_in_sequence_num, estimated_witness_bytes, estimated_full_size, estimated_weight,
  estimated_v_bytes, check_input,
}
use arkade_2fa_vault_poc.Vault.Build.{
  SpendParams, BuiltSpend, or_final, output_of, spend_tx, spend_psbt, spend_input, spend_record,
  checked_prevout, attach_packet, check_amounts, assemble, build_routine_spend,
}
use arkade_2fa_vault_poc.Vault.Agrees.{IsAttached, attach_packet-IsAttached}
use arkade_2fa_vault_poc.Vault.Balanced.{
  require_sats_money, IsRemaining, remaining_after-IsRemaining,
}

-- The previous output, as checkedPrevout takes it.
pub record IsChecked (chain : Chain) (v : Built) (prev_tx : MsgTx) (op : OutPoint) (prev : TxOut)
    : Type 0 where
  pub hash : bytes_eq (chain.tx_hash prev_tx) op.hash ≡ true
  pub at_index : get_elem? prev_tx.tx_out op.index ≡ some prev
  pub script : bytes_eq prev.pk_script v.pk_script ≡ true

checked_prevout-IsChecked :
    {Witness : Type 0} (wire : Wire Witness) (chain : Chain) (v : Built) (prev_tx : MsgTx)
    (op : OutPoint) (prev : TxOut)
    → checked_prevout wire chain v prev_tx op ≡ accepted prev
    → IsChecked chain v prev_tx op prev
unfolding checked_prevout
checked_prevout-IsChecked wire chain v prev_tx op prev h =
    let (hash, h1) =
      require-accepted (bytes_eq (chain.tx_hash prev_tx) op.hash) prevout_hash_mismatch _ prev h in
    let output = get_elem? prev_tx.tx_out op.index in
    let (o, some_o, h2) = >>=-accepted (from_option prevout_out_of_range output) _ prev h1 in
    let (script, h3) =
      require-accepted (bytes_eq o.pk_script v.pk_script) prevout_script _ prev h2 in
    let (_, _, h4) = >>=-accepted (require_sats o.value) _ prev h3 in
    let same = accepted-eq o prev h4 in
    let checked : IsChecked chain v prev_tx op o = record {
      hash = hash;
      at_index = from_option-accepted prevout_out_of_range output o some_o;
      script = script;
    } in
    rw (← same) checked

eq_ℤ_refl : (z : ℤ) → eq_ℤ z z ≡ true
eq_ℤ_refl z = ground arith

pub verified_built :
    (chain : Chain) (v : Built) (routine : Leaf) (prev_tx tx : MsgTx) (op : OutPoint) (sequence : ℕ)
    (prev : TxOut)
    → IsChecked chain v prev_tx op prev
    → tx.tx_in ≡ spend_input op sequence ∷ []
    → require_verified_prevout chain (spend_psbt routine prev prev_tx tx) ≡ accepted prev_tx
unfolding require_verified_prevout
verified_built chain v routine prev_tx tx op sequence prev checked tx_in =
    rw (tx_in, checked.hash, checked.at_index, eq_ℤ_refl prev.value, bytes_eq_refl prev.pk_script)
      refl

pub check_input_built :
    (chain : Chain) (v : Built) (routine : Leaf) (prev_tx : MsgTx) (op : OutPoint) (sequence : ℕ)
    (prev : TxOut)
    → IsChecked chain v prev_tx op prev
    → IsMoney prev.value
    → or_final sequence ≡ max_tx_in_sequence_num
    → check_input v routine (spend_input op sequence, spend_record routine prev prev_tx)
      ≡ accepted prev.value
unfolding check_input
check_input_built chain v routine prev_tx op sequence prev checked money last =
    let last_test : (or_final sequence == max_tx_in_sequence_num) ≡ true = ground (arith, last) in
    rw
      (
        last_test,
        checked.script,
        require_sats_money prev.value money,
        bytes_eq_refl routine.script,
        bytes_eq_refl routine.control_block,
      )
      refl

weight_positive :
    {Witness : Type 0} (wire : Wire Witness) (chain : Chain) (tx : MsgTx) (routine : Leaf)
    → 0 < estimated_weight wire chain tx routine
unfolding estimated_weight estimated_full_size estimated_witness_bytes
weight_positive wire chain tx routine = omega arith

-- A size that a transaction can have.
pub sized_built :
    {Witness : Type 0} (wire : Wire Witness) (chain : Chain) (tx : MsgTx) (routine : Leaf)
    → estimated_weight wire chain tx routine < 2 ^ 32
    → not (leb_ℤ (estimated_v_bytes wire chain tx routine) (pos 0)) ≡ true
unfolding estimated_v_bytes
sized_built wire chain tx routine small =
    let some_weight = weight_positive wire chain tx routine in
    let size = (estimated_weight wire chain tx routine + 3) / 4 in
    let fits : IsInt64 (pos size) = (omega (arith, small), omega (arith, small)) in
    let some_size : 0 < size = omega (arith, some_weight) in
    let tested : not (leb_ℤ (pos size) (pos 0)) ≡ true = ground (arith, some_size) in
    rw (int64-eq_of_IsInt64 (pos size) fits) tested

-- What is asked of the previous output and the amounts.
pub record AreGood {Witness : Type 0} (v : Built) (p : SpendParams Witness) (prev : TxOut)
    (change : ℤ) : Type 0 where
  pub above : not (ltb_ℤ p.recipient_amount v.authorization_policy.recipient_dust_sats) ≡ true
  pub above_change : not (ltb_ℤ change v.authorization_policy.recipient_dust_sats) ≡ true
  pub remaining : IsRemaining prev.value p.recipient_amount p.fee change

check_amounts-AreGood :
    {Witness : Type 0} (wire : Wire Witness) (chain : Chain) (v : Built) (p : SpendParams Witness)
    (prev : TxOut) (change : ℤ)
    → check_amounts wire chain v p prev ≡ accepted change
    → AreGood v p prev change
unfolding check_amounts
check_amounts-AreGood wire chain v p prev change h =
    let dust = v.authorization_policy.recipient_dust_sats in
    let (_, h1) =
      require-accepted (not (ltb_ℤ p.fee (pos 0) || leb_ℤ p.recipient_amount (pos 0)))
        invalid_amount _ change h in
    let (above, h2) =
      require-accepted (not (ltb_ℤ p.recipient_amount dust)) recipient_below_dust _ change h1 in
    let (c, left, h3) =
      >>=-accepted (remaining_after prev.value p.recipient_amount p.fee) _ change h2 in
    let (above_change, h4) = require-accepted (not (ltb_ℤ c dust)) change_below_dust _ change h3 in
    let same = accepted-eq c change h4 in
    let good : AreGood v p prev c = record {
      above = above;
      above_change = above_change;
      remaining = remaining_after-IsRemaining prev.value p.recipient_amount p.fee c left;
    } in
    rw (← same) good

-- The transaction that a build has made.
pub record IsAssembled {Witness : Type 0} (wire : Wire Witness) (chain : Chain) (v : Built)
    (p : SpendParams Witness) (b : BuiltSpend) : Type 0 where
  pub routine : Leaf
  pub enrolled : v.routine ≡ some routine
  pub prev_tx : MsgTx
  pub prev : TxOut
  pub checked : IsChecked chain v prev_tx p.prev_out_point prev
  pub segwit : chain.is_witness_program p.recipient_script ≡ true
  pub change : ℤ
  pub good : AreGood v p prev change
  pub out : TxOut
  pub attached :
      IsAttached wire chain (record { vin = 0; script = v.auth_script; witness = p.witness }) out
  pub packet :
      b.packet
      ≡ spend_psbt routine prev prev_tx (
          spend_tx p.prev_out_point p.sequence
            (output_of p.recipient_amount p.recipient_script)
            (output_of change v.pk_script)
            out)
  pub change_is : b.change_amount ≡ change

pub build-IsAssembled :
    {Witness : Type 0} (wire : Wire Witness) (chain : Chain) (v : Built) (p : SpendParams Witness)
    (b : BuiltSpend)
    → build_routine_spend wire chain v p ≡ accepted b
    → IsAssembled wire chain v p b
unfolding build_routine_spend assemble
build-IsAssembled {Witness} wire chain v p b h =
    let (routine, some_routine, h1) = >>=-accepted (from_option not_enrolled v.routine) _ b h in
    let (_, h2) = require-accepted (not (length p.recipient_script == 0)) script_required _ b h1 in
    let (segwit, h3) =
      require-accepted (chain.is_witness_program p.recipient_script) not_segwit _ b h2 in
    let (prev_tx, _, h4) = >>=-accepted (from_option prevout_required p.prev_tx) _ b h3 in
    let (prev, prev_checked, h5) =
      >>=-accepted (checked_prevout wire chain v prev_tx p.prev_out_point) _ b h4 in
    let (change, amounts, h6) = >>=-accepted (check_amounts wire chain v p prev) _ b h5 in
    let entry : EmulatorEntry Witness = record {
      vin = 0;
      script = v.auth_script;
      witness = p.witness;
    } in
    let (out, attached, h7) = >>=-accepted (attach_packet wire chain entry) _ b h6 in
    let tx =
      spend_tx p.prev_out_point p.sequence (output_of p.recipient_amount p.recipient_script)
        (output_of change v.pk_script) out in
    let (_, h8) = require-accepted (chain.new_from_unsigned_tx tx) psbt_failed _ b h7 in
    let (_, h9) = require-accepted (chain.set_prevout_tx_field prev_tx) psbt_failed _ b h8 in
    let hash = chain.arkade_sighash tx (output_of prev.value prev.pk_script) routine.script in
    let (challenge, _, h10) = >>=-accepted (from_option no_sighash hash) _ b h9 in
    let made = accepted-eq _ b h10 in
    record {
      routine = routine;
      enrolled = from_option-accepted not_enrolled v.routine routine some_routine;
      prev_tx = prev_tx;
      prev = prev;
      checked = checked_prevout-IsChecked wire chain v prev_tx p.prev_out_point prev prev_checked;
      segwit = segwit;
      change = change;
      good = check_amounts-AreGood wire chain v p prev change amounts;
      out = out;
      attached = attach_packet-IsAttached wire chain entry out attached;
      packet = ap (λ (x : BuiltSpend). x.packet) (sym made);
      change_is = ap (λ (x : BuiltSpend). x.change_amount) (sym made);
    }
