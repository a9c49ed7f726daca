-- ===== src/Vault/Complete.antt =====
-- What verifyRoutinePartials of poc/2fa-vault/internal/vault/tx.go accepts.
use mathlib.Core.List.{Permᴰ, append-nil}
use arkade_2fa_vault_poc.Prelude.{
  ℕ, ◌≡◌, refl, true, ◌&&◌, some, List, [], ◌∷◌, map, length, All, ◌==◌, arith,
}
use arkade_2fa_vault_poc.Prelude.Checks.{
  accepted, >>=-accepted, require-accepted, require-true, from_option-accepted, from_option,
}
use arkade_2fa_vault_poc.Vault.{
  TxOut, MsgTx, TaprootScriptSpendSig, PInput, Psbt, Leaf, Built, Chain, not_enrolled,
  preexisting_script, witness_utxo_required, three_signatures_required, signature_length,
  no_sighash, bad_signature,
}
use arkade_2fa_vault_poc.Vault.Prevout.{only_input}
use arkade_2fa_vault_poc.Vault.Partials.{
  Wanted, Taken, take_signatures, no_signatures, check_routine_leaf, verify_schnorr_tap_sig,
  verify_taken, verify_routine_partials,
}
use arkade_2fa_vault_poc.Vault.Signed.{entries, AreKeyed, IsForLeaf, take_signatures-AreTaken}
use arkade_2fa_vault_poc.Vault.Routine.{the_input-accepted}

-- A signature of 64 bytes that verifies with the key.
pub record IsValidSig (chain : Chain) (tx : MsgTx) (utxo : TxOut) (leaf_script key : List ℕ)
    (s : TaprootScriptSpendSig) : Type 0 where
  pub size : length s.signature ≡ 64
  pub digest : List ℕ
  pub digest_of : chain.tapscript_sighash tx utxo leaf_script ≡ some digest
  pub valid : chain.schnorr_verify s.signature key digest ≡ true

verify_schnorr-IsValidSig :
    (chain : Chain) (tx : MsgTx) (utxo : TxOut) (leaf_script key : List ℕ)
    (s : TaprootScriptSpendSig) (u : Unit {0})
    → verify_schnorr_tap_sig chain tx utxo leaf_script key s ≡ accepted u
    → IsValidSig chain tx utxo leaf_script key s
unfolding verify_schnorr_tap_sig
verify_schnorr-IsValidSig chain tx utxo leaf_script key s u h =
    let hash = chain.tapscript_sighash tx utxo leaf_script in
    let (size, h1) = require-accepted (length s.signature == 64) signature_length _ u h in
    let (digest, hashed, h2) = >>=-accepted (from_option no_sighash hash) _ u h1 in
    record {
      size = ground (arith, size);
      digest = digest;
      digest_of = from_option-accepted no_sighash hash digest hashed;
      valid = require-true (chain.schnorr_verify s.signature key digest) bad_signature u h2;
    }

-- The three signatures.
pub record AreValid (chain : Chain) (tx : MsgTx) (utxo : TxOut) (leaf_script : List ℕ)
    (want : Wanted) (taken : Taken) : Type 0 where
  pub phone : TaprootScriptSpendSig
  pub vault : TaprootScriptSpendSig
  pub arkade : TaprootScriptSpendSig
  pub taken_of : entries taken ≡ phone ∷ vault ∷ arkade ∷ []
  pub phone_key : phone.x_only_pub_key ≡ want.phone
  pub vault_key : vault.x_only_pub_key ≡ want.vault
  pub arkade_key : arkade.x_only_pub_key ≡ want.arkade
  pub phone_valid : IsValidSig chain tx utxo leaf_script want.phone phone
  pub vault_valid : IsValidSig chain tx utxo leaf_script want.vault vault
  pub arkade_valid : IsValidSig chain tx utxo leaf_script want.arkade arkade

three_entries :
    (taken : Taken) (p v a : TaprootScriptSpendSig)
    → taken.phone ≡ some p
    → taken.vault ≡ some v
    → taken.arkade ≡ some a
    → entries taken ≡ p ∷ v ∷ a ∷ []
three_entries taken p v a hp hv ha = rw (hp, hv, ha) refl

verify_taken-AreValid :
    (chain : Chain) (tx : MsgTx) (utxo : TxOut) (leaf_script : List ℕ) (want : Wanted) (count : ℕ)
    (taken : Taken) (u : Unit {0})
    → AreKeyed want taken
    → verify_taken chain tx utxo leaf_script want count taken ≡ accepted u
    → AreValid chain tx utxo leaf_script want taken
unfolding verify_taken
verify_taken-AreValid chain tx utxo leaf_script want count taken u keyed h =
    let e = three_signatures_required in
    let check = verify_schnorr_tap_sig chain tx utxo leaf_script in
    let (p, some_p, h1) = >>=-accepted (from_option e taken.phone) _ u h in
    let (v, some_v, h2) = >>=-accepted (from_option e taken.vault) _ u h1 in
    let (a, some_a, h3) = >>=-accepted (from_option e taken.arkade) _ u h2 in
    let (_, h4) = require-accepted (count == 3) e _ u h3 in
    let (u₁, p_valid, h5) = >>=-accepted (check want.phone p) _ u h4 in
    let (u₂, v_valid, a_valid) = >>=-accepted (check want.vault v) _ u h5 in
    let p_of = from_option-accepted e taken.phone p some_p in
    let v_of = from_option-accepted e taken.vault v some_v in
    let a_of = from_option-accepted e taken.arkade a some_a in
    record {
      phone = p;
      vault = v;
      arkade = a;
      taken_of = three_entries taken p v a p_of v_of a_of;
      phone_key = keyed.phone p p_of;
      vault_key = keyed.vault v v_of;
      arkade_key = keyed.arkade a a_of;
      phone_valid = verify_schnorr-IsValidSig chain tx utxo leaf_script want.phone p u₁ p_valid;
      vault_valid = verify_schnorr-IsValidSig chain tx utxo leaf_script want.vault v u₂ v_valid;
      arkade_valid = verify_schnorr-IsValidSig chain tx utxo leaf_script want.arkade a u a_valid;
    }

-- Exactly the three signatures that a routine spend needs.
pub record IsComplete (chain : Chain) (ptx : Psbt) (v : Built) : Type 0 where
  pub routine : Leaf
  pub enrolled : v.routine ≡ some routine
  pub input : PInput
  pub inputs : ptx.inputs ≡ input ∷ []
  pub utxo : TxOut
  pub utxo_of : input.witness_utxo ≡ some utxo
  pub want : Wanted
  pub phone_of : v.phone_routine_bip340 ≡ some want.phone
  pub vault_of : v.tweaked_vault_cosigner ≡ some want.vault
  pub arkade_of : v.tweaked_arkade_cosigner ≡ some want.arkade
  pub leaf_of : routine.hash ≡ want.leaf_hash
  pub taken : Taken
  pub valid : AreValid chain ptx.unsigned_tx utxo routine.script want taken
  pub sigs : List TaprootScriptSpendSig
  pub sigs_of : input.taproot_script_spend_sig ≡ map (λ (s : TaprootScriptSpendSig). some s) sigs
  pub perm : Permᴰ sigs (valid.phone ∷ valid.vault ∷ valid.arkade ∷ [])
  pub for_leaf : All (IsForLeaf want) input.taproot_script_spend_sig

nothing_keyed : (want : Wanted) → AreKeyed want no_signatures
nothing_keyed want = record { phone = λ s h. cc h; vault = λ s h. cc h; arkade = λ s h. cc h }

-- FinalizeRoutine goes on only with the signatures of a routine spend: the one input carries exactly three, in
-- some order, by the keys of the phone, of the vault cosigner and of the Arkade cosigner, each for the
-- routine leaf with the default hash type, of 64 bytes, and valid for the transaction and the output that
-- it spends.
pub verify_routine_partials-IsComplete :
    (chain : Chain) (ptx : Psbt) (v : Built) (u : Unit {0})
    → verify_routine_partials chain ptx v ≡ accepted u
    → IsComplete chain ptx v
unfolding verify_routine_partials
verify_routine_partials-IsComplete chain ptx v u h =
    let e = not_enrolled in
    let (routine, some_routine, h1) = >>=-accepted (from_option e v.routine) _ u h in
    let (phone, some_phone, h2) = >>=-accepted (from_option e v.phone_routine_bip340) _ u h1 in
    let (vault, some_vault, h3) = >>=-accepted (from_option e v.tweaked_vault_cosigner) _ u h2 in
    let (arkade, some_arkade, h4) = >>=-accepted (from_option e v.tweaked_arkade_cosigner) _ u h3 in
    let (one, only, h5) = >>=-accepted (only_input ptx) _ u h4 in
    let (_, h6) =
      require-accepted
        ((length one.1.final_script_witness == 0) && (length one.1.final_script_sig == 0))
        preexisting_script _ u h5 in
    let (utxo, some_utxo, h7) =
      >>=-accepted (from_option witness_utxo_required one.1.witness_utxo) _ u h6 in
    let (_, _, h8) = >>=-accepted (check_routine_leaf routine one.1) _ u h7 in
    let sigs = one.1.taproot_script_spend_sig in
    let want : Wanted = record {
      phone = phone;
      vault = vault;
      arkade = arkade;
      leaf_hash = routine.hash;
    } in
    let (taken, looped, h9) = >>=-accepted (take_signatures want [] sigs no_signatures) _ u h8 in
    let all =
      take_signatures-AreTaken want [] sigs no_signatures taken (nothing_keyed want) looped in
    let valid =
      verify_taken-AreValid chain ptx.unsigned_tx utxo routine.script want (length sigs) taken u
        all.keyed h9 in
    let whole : Permᴰ all.met (entries taken) = rw (append-nil all.met) at all.perm in
    record {
      routine = routine;
      enrolled = from_option-accepted e v.routine routine some_routine;
      input = one.1;
      inputs = (the_input-accepted ptx.unsigned_tx.tx_in ptx.inputs one only).1;
      utxo = utxo;
      utxo_of = from_option-accepted witness_utxo_required one.1.witness_utxo utxo some_utxo;
      want = want;
      phone_of = from_option-accepted e v.phone_routine_bip340 phone some_phone;
      vault_of = from_option-accepted e v.tweaked_vault_cosigner vault some_vault;
      arkade_of = from_option-accepted e v.tweaked_arkade_cosigner arkade some_arkade;
      leaf_of = refl;
      taken = taken;
      valid = valid;
      sigs = all.met;
      sigs_of = all.sigs_of;
      perm = rw (← valid.taken_of) whole;
      for_leaf = all.for_leaf;
    }
