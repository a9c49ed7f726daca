-- ===== src/Vault/Accepts.antt =====
-- What BuildRoutineSpend of poc/2fa-vault/internal/vault/tx.go builds, classify of
-- poc/2fa-vault/internal/provider/classify.go takes.
use arkade_2fa_vault_poc.Arkade.Packet.{Wire}
use arkade_2fa_vault_poc.Vault.{MsgTx, Built, Chain}
use arkade_2fa_vault_poc.Vault.Build.{SpendParams, BuiltSpend, output_of, spend_tx}
use arkade_2fa_vault_poc.Vault.Assembled.{IsAssembled}

-- The transaction of a build.
abbrev tx_of :
    {Witness : Type 0} {wire : Wire Witness} {chain : Chain} (v : Built) (p : SpendParams Witness)
    {b : BuiltSpend}
    → IsAssembled wire chain v p b
    → MsgTx
tx_of v p a =
    spend_tx p.prev_out_point p.sequence (output_of p.recipient_amount p.recipient_script)
      (output_of a.change v.pk_script) a.out
