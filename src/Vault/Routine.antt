-- ===== src/Vault/Routine.antt =====
-- The routine spends that classifySpend of poc/2fa-vault/internal/provider/classify.go takes.
use arkade_2fa_vault_poc.Prelude.{◌≡◌, ap, some, List, [], ◌∷◌, get_elem?}
use arkade_2fa_vault_poc.Prelude.Int.{ℤ, pos, ◌+ℤ◌, ◌*ℤ◌, ◌≤ℤ◌, int64}
use arkade_2fa_vault_poc.Prelude.Checks.{accepted, accepted-eq}
use arkade_2fa_vault_poc.Arkade.Packet.{Wire}
use arkade_2fa_vault_poc.Vault.{
  TxOut, TxIn, MsgTx, TaprootTapLeafScript, PInput, Psbt, Leaf, AuthorizationPolicy, Built, Chain,
}
use arkade_2fa_vault_poc.Vault.Money.{IsMoney}
use arkade_2fa_vault_poc.Vault.Prevout.{the_input}
use arkade_2fa_vault_poc.Vault.Classify.{
  Classified, max_tx_in_sequence_num, sig_hash_default, base_leaf_version,
}
use arkade_2fa_vault_poc.Vault.Shape.{IsShape}
use arkade_2fa_vault_poc.Vault.Amounts.{total}

-- The one input spends an output of the vault by the routine leaf.
pub record IsRoutineInput (op : Built) (routine : Leaf) (txin : TxIn) (input : PInput) (value : ℤ)
    : Type 0 where
  pub sequence : txin.sequence ≡ max_tx_in_sequence_num
  pub sighash : input.sighash_type ≡ sig_hash_default
  pub utxo : TxOut
  pub utxo_of : input.witness_utxo ≡ some utxo
  pub same_vault : utxo.pk_script ≡ op.pk_script
  pub value_of : utxo.value ≡ value
  pub money : IsMoney value
  pub leaf : TaprootTapLeafScript
  pub leaf_of : input.taproot_leaf_script ≡ some leaf ∷ []
  pub script : leaf.script ≡ routine.script
  pub control_block : leaf.control_block ≡ routine.control_block
  pub version : leaf.leaf_version ≡ base_leaf_version

-- Within the limits of the policy.
pub record IsWithinPolicy (cl : Classified) (policy : AuthorizationPolicy) : Type 0 where
  pub recipient_capped : cl.recipient.value ≤ℤ policy.recipient_cap_sats
  pub fee_capped : cl.fee ≤ℤ policy.absolute_fee_ceiling_sats
  pub rate_capped : cl.fee ≤ℤ int64 (policy.feerate_ceiling_sat_per_v *ℤ cl.v_bytes)

pub the_input-accepted :
    (tx_in : List TxIn) (inputs : List PInput) (one : TxIn × PInput)
    → the_input tx_in inputs ≡ accepted one
    → (tx_in ≡ one.0 ∷ []) × (inputs ≡ one.1 ∷ [])
the_input-accepted [] inputs one h = cc
the_input-accepted (t ∷ []) [] one h = cc
the_input-accepted (t ∷ []) (i ∷ j ∷ inputs) one h = cc
the_input-accepted (t ∷ u ∷ tx_in) inputs one h = cc
the_input-accepted (t ∷ []) (i ∷ []) one h =
    let same = accepted-eq (t, i) one h in
    (ap (λ (x : TxIn × PInput). x.0 ∷ []) same, ap (λ (x : TxIn × PInput). x.1 ∷ []) same)

-- The previous transaction has the hash that the input names, and the output that the psbt states.
pub record IsPrevout (chain : Chain) (txin : TxIn) (input : PInput) (prev : MsgTx) : Type 0 where
  pub stated : TxOut
  pub stated_of : input.witness_utxo ≡ some stated
  pub field : input.prevout_txs ≡ some (prev ∷ [])
  pub hash : chain.tx_hash prev ≡ txin.previous_out_point.hash
  pub actual : get_elem? prev.tx_out txin.previous_out_point.index ≡ some stated

-- A routine spend of a vault.
pub record IsRoutineSpend {Witness : Type 0} (wire : Wire Witness) (chain : Chain) (ptx : Psbt)
    (op : Built) (cl : Classified) : Type 0 where
  pub routine : Leaf
  pub enrolled : op.routine ≡ some routine
  pub txin : TxIn
  pub input : PInput
  pub tx_in : ptx.unsigned_tx.tx_in ≡ txin ∷ []
  pub inputs : ptx.inputs ≡ input ∷ []
  pub prev : MsgTx
  pub prevout : IsPrevout chain txin input prev
  pub value : ℤ
  pub spends : IsRoutineInput op routine txin input value
  pub version : ptx.unsigned_tx.version ≡ pos 2
  pub lock_time : ptx.unsigned_tx.lock_time ≡ 0
  pub shape : IsShape wire chain ptx.unsigned_tx op ptx.unsigned_tx.tx_out (some cl.recipient)
  pub conserved : value ≡ total ptx.unsigned_tx.tx_out +ℤ cl.fee
  pub fee_nonneg : pos 0 ≤ℤ cl.fee
  pub sized : pos 1 ≤ℤ cl.v_bytes
  pub policy : IsWithinPolicy cl op.authorization_policy
