-- ===== src/Provider/Challenges.antt =====
-- IssuePasskeyChallenge and consumePasskeyChallenge of poc/2fa-vault/internal/provider/session.go.
use arkade_2fa_vault_poc.Prelude.Checks.{
  Checked, accepted, refused, require, ◌>>=◌, ◌>>◌, from_option,
}
use arkade_2fa_vault_poc.Prelude.{
  ℕ, ◌+◌, ◌*◌, ◌^◌, Bool, false, not, ◌||◌, ◌&&◌, Option, none, some, List, [], ◌∷◌, length, ltb,
  leb, ◌==◌, if◌then◌else◌,
}
use arkade_2fa_vault_poc.Prelude.Bytes.{bytes_eq}
use arkade_2fa_vault_poc.Codec.Base64
use arkade_2fa_vault_poc.Codec.Hex
use arkade_2fa_vault_poc.Provider.{
  Pending, Table, Loaded, PasskeyError, from_loaded, cancelled, invalid_purpose,
  load_credential_failed, not_enrolled, load_envelope_failed, not_enabled, id_failed,
  challenge_failed, verification_busy, authentication_failed,
}

-- "recover".
abbrev pub passkey_purpose_recover : List ℕ
passkey_purpose_recover = b'r' ∷ b'e' ∷ b'c' ∷ b'o' ∷ b'v' ∷ b'e' ∷ b'r' ∷ []

-- "install-envelope".
abbrev pub passkey_purpose_install : List ℕ
passkey_purpose_install =
    b'i' ∷ b'n' ∷ b's' ∷ b't' ∷ b'a' ∷ b'l' ∷ b'l' ∷ b'-' ∷ b'e' ∷ b'n' ∷ b'v' ∷ b'e' ∷ b'l' ∷ b'o'
    ∷ b'p' ∷ b'e' ∷ []

-- Two minutes.
abbrev pub passkey_challenge_ttl : ℕ
passkey_challenge_ttl = 120 * 10 ^ 9

abbrev pub max_passkey_challenges : ℕ
max_passkey_challenges = 64

unfoldable pub find : List ℕ → Table → Option Pending
find id [] = none
find id ((key, p) ∷ table) = if bytes_eq key id then some p else find id table

unfoldable pub delete : List ℕ → Table → Table
delete id [] = []
delete id ((key, p) ∷ table) =
    let rest = delete id table in if bytes_eq key id then rest else (key, p) ∷ rest

-- The loop over the map that deletes what has expired.
unfoldable pub expire : ℕ → Table → Table
expire now [] = []
expire now ((key, p) ∷ table) =
    let rest = expire now table in if not (ltb now p.expires_at) then rest else (key, p) ∷ rest

-- What one call of IssuePasskeyChallenge reads: whether its context is cancelled, the credential, by its
-- id, and its envelope, the two reads of random bytes, and the clock.
pub record Ambient : Type 0 where
  pub is_cancelled : Bool
  pub credential : Loaded (List ℕ)
  pub envelope : Loaded (Unit {0})
  pub id_random : Option (List ℕ)
  pub challenge_random : Option (List ℕ)
  pub now : ℕ

pub record PasskeyChallengeResponse : Type 0 where
  pub challenge_id : List ℕ
  pub challenge : List ℕ
  pub allow_credential_id : List ℕ
  pub expires_in_seconds : ℕ

abbrev pub check_envelope : Ambient → List ℕ → Checked PasskeyError (Unit {0})
check_envelope env purpose =
    if bytes_eq purpose passkey_purpose_recover
    then from_loaded load_envelope_failed not_enabled env.envelope
    else accepted tt

-- Up to the lock: the id of the credential, the random id and the challenge.
unfoldable pub prepare : Ambient → List ℕ → Checked PasskeyError (List ℕ × (List ℕ × List ℕ))
prepare env purpose =
    require (not env.is_cancelled) cancelled
    >> require
        (bytes_eq purpose passkey_purpose_recover || bytes_eq purpose passkey_purpose_install)
        invalid_purpose
    >> from_loaded load_credential_failed not_enrolled env.credential
    >>= λ credential.
        check_envelope env purpose >> from_option id_failed env.id_random >>= λ id_raw.
        from_option challenge_failed env.challenge_random >>= λ challenge.
        accepted (credential, (id_raw, challenge))

abbrev pub respond : List ℕ → List ℕ → List ℕ → PasskeyChallengeResponse
respond id challenge credential = record {
  challenge_id = id;
  challenge = Hex.encode challenge;
  allow_credential_id = Hex.encode credential;
  expires_in_seconds = 120;
}

abbrev pub new_pending : ℕ → List ℕ → List ℕ → Pending
new_pending now purpose challenge = record {
  purpose = purpose;
  challenge = challenge;
  expires_at = now + passkey_challenge_ttl;
}

-- Under the lock.
unfoldable pub store :
    ℕ
    → List ℕ
    → List ℕ × (List ℕ × List ℕ)
    → Table
    → Checked PasskeyError PasskeyChallengeResponse × Table
unfolding expire delete
store now purpose (credential, (id_raw, challenge)) table =
    let id = Base64.encode id_raw in
    let kept = expire now table in
    if leb max_passkey_challenges (length kept) then (refused verification_busy, kept) else (
      accepted (respond id challenge credential),
      (id, new_pending now purpose challenge) ∷ delete id kept,
    )

abbrev pub store_prepared :
    ℕ
    → List ℕ
    → Checked PasskeyError (List ℕ × (List ℕ × List ℕ))
    → Table
    → Checked PasskeyError PasskeyChallengeResponse × Table
store_prepared now purpose (refused e) table = (refused e, table)
store_prepared now purpose (accepted parts) table = store now purpose parts table

unfoldable pub issue_passkey_challenge :
    Ambient → List ℕ → Table → Checked PasskeyError PasskeyChallengeResponse × Table
unfolding prepare store
issue_passkey_challenge env purpose table =
    store_prepared env.now purpose (prepare env purpose) table

abbrev pub is_canonical_raw : List ℕ → Option (List ℕ) → Bool
is_canonical_raw id none = false
is_canonical_raw id (some raw) = (length raw == 16) && bytes_eq (Base64.encode raw) id

-- The format of an id: 22 digits that are the encoding of 16 bytes.
unfoldable pub is_challenge_id : List ℕ → Bool
is_challenge_id id = (length id == 22) && is_canonical_raw id (Base64.decode id)

-- What the pending challenge must be.
abbrev pub check_pending : List ℕ → ℕ → Option Pending → Checked PasskeyError (List ℕ)
check_pending purpose now none = refused authentication_failed
check_pending purpose now (some pending) =
    if not (bytes_eq pending.purpose purpose) || not (ltb now pending.expires_at)
    then refused authentication_failed
    else accepted pending.challenge

unfoldable pub consume_passkey_challenge :
    ℕ → List ℕ → List ℕ → Table → Checked PasskeyError (List ℕ) × Table
unfolding is_challenge_id find delete
consume_passkey_challenge now id purpose table =
    if not (is_challenge_id id)
    then (refused authentication_failed, table)
    else (check_pending purpose now (find id table), delete id table)
