-- ===== src/Vault/Partials.antt =====
-- verifyRoutinePartials of poc/2fa-vault/internal/vault/tx.go.
use arkade_2fa_vault_poc.Prelude.{
  ℕ, Bool, false, not, ◌||◌, ◌&&◌, Option, none, some, List, [], ◌∷◌, ◌++◌, length, ◌==◌,
  if◌then◌else◌,
}
use arkade_2fa_vault_poc.Prelude.Bytes.{bytes_eq}
use arkade_2fa_vault_poc.Prelude.Checks.{
  Checked, accepted, refused, require, ◌>>=◌, ◌>>◌, from_option,
}
use arkade_2fa_vault_poc.Vault.{
  TxOut, MsgTx, TaprootScriptSpendSig, PInput, Psbt, Leaf, Built, Chain, VaultError, not_enrolled,
  preexisting_script, witness_utxo_required, wrong_leaf, bad_leaf_version, nil_signature,
  duplicate_signature, bad_sighash, wrong_leaf_hash, duplicate_phone, duplicate_vault,
  duplicate_arkade, unexpected_key, three_signatures_required, signature_length, no_sighash,
  bad_signature,
}
use arkade_2fa_vault_poc.Vault.Prevout.{only_input}
use arkade_2fa_vault_poc.Vault.Classify.{sig_hash_default, base_leaf_version, is_nil, only_leaf}

-- wantPhone, wantVault, wantArkade and wantLeaf.
pub record Wanted : Type 0 where
  pub phone : List ℕ
  pub vault : List ℕ
  pub arkade : List ℕ
  pub leaf_hash : List ℕ

-- phoneSig, vaultSig and arkadeSig.
pub record Taken : Type 0 where
  pub phone : Option TaprootScriptSpendSig
  pub vault : Option TaprootScriptSpendSig
  pub arkade : Option TaprootScriptSpendSig

unfoldable pub is_seen : List ℕ → List (List ℕ) → Bool
is_seen key [] = false
is_seen key (k ∷ seen) = bytes_eq k key || is_seen key seen

abbrev pub key_of : TaprootScriptSpendSig → List ℕ
key_of s = s.x_only_pub_key ++ s.leaf_hash

-- The switch on the key.
unfoldable pub assign : Wanted → TaprootScriptSpendSig → Taken → Checked VaultError Taken
assign want s taken =
    if bytes_eq s.x_only_pub_key want.phone
    then require (is_nil taken.phone) duplicate_phone >> accepted (record taken { phone = some s })
    else if bytes_eq s.x_only_pub_key want.vault
    then require (is_nil taken.vault) duplicate_vault >> accepted (record taken { vault = some s })
    else if bytes_eq s.x_only_pub_key want.arkade
    then require (is_nil taken.arkade) duplicate_arkade
      >> accepted (record taken { arkade = some s })
    else refused unexpected_key

unfoldable pub take_signature :
    Wanted → List (List ℕ) → TaprootScriptSpendSig → Taken → Checked VaultError Taken
unfolding is_seen assign
take_signature want seen s taken =
    require (not (is_seen (key_of s) seen)) duplicate_signature
    >> require (s.sig_hash == sig_hash_default) bad_sighash
    >> require (bytes_eq s.leaf_hash want.leaf_hash) wrong_leaf_hash
    >> assign want s taken

-- The loop over the signatures, with the keys it has met.
unfoldable pub take_signatures :
    Wanted → List (List ℕ) → List (Option TaprootScriptSpendSig) → Taken → Checked VaultError Taken
unfolding take_signature
take_signatures want seen [] taken = accepted taken
take_signatures want seen (none ∷ sigs) taken = refused nil_signature
take_signatures want seen (some s ∷ sigs) taken =
    take_signature want seen s taken >>= λ next. take_signatures want (key_of s ∷ seen) sigs next

abbrev pub no_signatures : Taken
no_signatures = record { phone = none; vault = none; arkade = none }

unfoldable pub check_routine_leaf : Leaf → PInput → Checked VaultError (Unit {0})
check_routine_leaf routine input = only_leaf input.taproot_leaf_script >>= λ leaf.
    require
      (bytes_eq leaf.script routine.script && bytes_eq leaf.control_block routine.control_block)
      wrong_leaf
    >> require (leaf.leaf_version == base_leaf_version) bad_leaf_version

module _ (chain : Chain) where
  -- verifySchnorrTapSig, of the output that the input spends.
  unfoldable pub verify_schnorr_tap_sig :
      MsgTx → TxOut → List ℕ → List ℕ → TaprootScriptSpendSig → Checked VaultError (Unit {0})
  verify_schnorr_tap_sig tx utxo leaf_script want_x_only s =
      require (length s.signature == 64) signature_length
      >> from_option no_sighash (chain.tapscript_sighash tx utxo leaf_script)
      >>= λ digest. require (chain.schnorr_verify s.signature want_x_only digest) bad_signature

  -- Behind the loop.
  unfoldable pub verify_taken :
      MsgTx → TxOut → List ℕ → Wanted → ℕ → Taken → Checked VaultError (Unit {0})
  unfolding verify_schnorr_tap_sig
  verify_taken tx utxo leaf_script want count taken =
      from_option three_signatures_required taken.phone >>= λ phone.
      from_option three_signatures_required taken.vault >>= λ vault.
      from_option three_signatures_required taken.arkade >>= λ arkade.
      require (count == 3) three_signatures_required
      >> verify_schnorr_tap_sig tx utxo leaf_script want.phone phone
      >> verify_schnorr_tap_sig tx utxo leaf_script want.vault vault
      >> verify_schnorr_tap_sig tx utxo leaf_script want.arkade arkade

  unfoldable pub verify_routine_partials : Psbt → Built → Checked VaultError (Unit {0})
  unfolding check_routine_leaf take_signatures verify_taken
  verify_routine_partials ptx v = from_option not_enrolled v.routine >>= λ routine.
      from_option not_enrolled v.phone_routine_bip340 >>= λ phone.
      from_option not_enrolled v.tweaked_vault_cosigner >>= λ vault.
      from_option not_enrolled v.tweaked_arkade_cosigner >>= λ arkade. only_input ptx >>= λ one.
      require ((length one.1.final_script_witness == 0) && (length one.1.final_script_sig == 0))
        preexisting_script
      >> from_option witness_utxo_required one.1.witness_utxo
      >>= λ utxo.
          check_routine_leaf routine one.1
          >> (let want : Wanted = record {
            phone = phone;
            vault = vault;
            arkade = arkade;
            leaf_hash = routine.hash;
          } in
              take_signatures want [] one.1.taproot_script_spend_sig no_signatures
              >>= verify_taken ptx.unsigned_tx utxo routine.script want
                  (length one.1.taproot_script_spend_sig))
