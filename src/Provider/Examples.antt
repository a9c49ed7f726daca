-- ===== src/Provider/Examples.antt =====
-- The sessions of poc/2fa-vault/internal/provider/session.go at concrete inputs.
use arkade_2fa_vault_poc.Prelude.Checks.{accepted}
use arkade_2fa_vault_poc.Prelude.{
  ℕ, ◌<◌, ◌≤◌, ◌≡◌, refl, Bool, false, none, some, List, [], ◌∷◌, ◌++◌, arith,
}
use arkade_2fa_vault_poc.Prelude.Bytes.{bytes_eq}
use arkade_2fa_vault_poc.Prelude.Int.{pos}
use arkade_2fa_vault_poc.Codec.BigEndian.{fill_bytes, set_bytes}
use arkade_2fa_vault_poc.Codec.Base64
use arkade_2fa_vault_poc.Codec.Hex
use arkade_2fa_vault_poc.Webauthn.Scalar.{compact_low_s}
use arkade_2fa_vault_poc.Webauthn.Signature.{
  parse_compressed_p256, verify_es256, verify_digest_low_s,
}
use arkade_2fa_vault_poc.Webauthn.Assert.{validate, check_client_data, check_authenticator_data}
use arkade_2fa_vault_poc.Webauthn.Examples.{zeros, site, toy, key_bytes, asserted}
use arkade_2fa_vault_poc.Provider.{Pending, Table, found}
use arkade_2fa_vault_poc.Provider.Challenges.{
  Ambient, passkey_purpose_recover, new_pending, respond, find, issue_passkey_challenge,
  consume_passkey_challenge,
}
use arkade_2fa_vault_poc.Provider.Sessions.{
  Credential, SessionAssertionRequest, Surroundings, authenticate_passkey_session,
}
use arkade_2fa_vault_poc.Provider.Cases.{IsUsable}
use arkade_2fa_vault_poc.Provider.Authenticated.{IsVerified, authenticate-IsVerified}
use arkade_2fa_vault_poc.Provider.History.{
  Call, issuing, authenticating, run, issues, sessions, IsChallengeMap, run-IsChallengeMap,
}
use arkade_2fa_vault_poc.Provider.Once.{sessions-le-issues}
use arkade_2fa_vault_poc.Provider.Lives.{consume-issue}

abbrev stored : Credential
stored = record {
  id = asserted.credential_id;
  webauthn_p256 = key_bytes;
  phone_direct_p256 = key_bytes;
  origin = site;
  rp_id = site;
}

abbrev id_bytes : List ℕ
id_bytes = fill_bytes 16 1

abbrev id : List ℕ
id = Base64.encode id_bytes

abbrev request : SessionAssertionRequest
request = record {
  challenge_id = id;
  credential_id = Hex.encode asserted.credential_id;
  client_data_json = Hex.encode asserted.client_data_json;
  authenticator_data = Hex.encode asserted.authenticator_data;
  signature = Hex.encode asserted.der_signature;
  direct_proof = Hex.encode (fill_bytes 32 5 ++ fill_bytes 32 6);
}

abbrev no_prf : List ℕ → Bool
no_prf json = false

abbrev calm : Surroundings
calm = record {
  is_cancelled = false;
  slots_in_use = 1;
  max_concurrent_verifications = pos 0;
  now = 1000;
  credential = found stored;
}

abbrev drawn : Ambient
drawn = record {
  is_cancelled = false;
  credential = found stored.id;
  envelope = found tt;
  id_random = some id_bytes;
  challenge_random = some zeros;
  now = 7;
}

abbrev pending : Table
pending = (id, new_pending 7 passkey_purpose_recover zeros) ∷ []

authenticate-IsVerified_example :
    (p : Pending) × IsUsable 1000 id passkey_purpose_recover pending p
    × IsVerified toy no_prf calm passkey_purpose_recover request p.challenge stored
    × (find id
          (authenticate_passkey_session toy no_prf calm passkey_purpose_recover request pending).1
        ≡ none)
unfolding authenticate_passkey_session bytes_eq fill_bytes set_bytes Base64.decode Base64.encode
    Hex.decode Hex.encode Hex.decode_fixed_hex compact_low_s parse_compressed_p256 verify_es256
    verify_digest_low_s validate check_client_data check_authenticator_data
    consume_passkey_challenge
authenticate-IsVerified_example =
    authenticate-IsVerified toy no_prf calm passkey_purpose_recover request pending stored refl

-- The challenge is given out once, and the same request is sent twice.
abbrev replayed : List Call
replayed =
    issuing drawn passkey_purpose_recover
    ∷ authenticating calm passkey_purpose_recover request
    ∷ authenticating calm passkey_purpose_recover request
    ∷ []

opened_once : sessions toy no_prf id replayed [] ≡ 1
unfolding sessions issue_passkey_challenge authenticate_passkey_session bytes_eq fill_bytes
    set_bytes Base64.decode Base64.encode Hex.decode Hex.encode Hex.decode_fixed_hex compact_low_s
    parse_compressed_p256 verify_es256 verify_digest_low_s validate check_client_data
    check_authenticator_data consume_passkey_challenge
opened_once = refl

sessions-le-issues_example : sessions toy no_prf id replayed [] ≤ issues toy no_prf id replayed []
sessions-le-issues_example = sessions-le-issues toy no_prf id replayed

run-IsChallengeMap_example : IsChallengeMap (run toy no_prf replayed [])
run-IsChallengeMap_example = run-IsChallengeMap toy no_prf replayed

id_bytes-AreBytes : Base64.AreBytes id_bytes
unfolding fill_bytes
id_bytes-AreBytes =
    let zero_byte : 0 < 256 = omega arith in
    let one_byte : 1 < 256 = omega arith in
    (
      zero_byte,
      (
        zero_byte,
        (
          zero_byte,
          (
            zero_byte,
            (
              zero_byte,
              (
                zero_byte,
                (
                  zero_byte,
                  (
                    zero_byte,
                    (
                      zero_byte,
                      (
                        zero_byte,
                        (
                          zero_byte,
                          (zero_byte, (zero_byte, (zero_byte, (zero_byte, (one_byte, tt))))),
                        ),
                      ),
                    ),
                  ),
                ),
              ),
            ),
          ),
        ),
      ),
    )

abbrev foreign : List Call
foreign = authenticating calm passkey_purpose_recover (record request { challenge_id = [] }) ∷ []

consume-issue_example :
    (challenge : List ℕ) × (Hex.encode zeros ≡ Hex.encode challenge)
    × ((consume_passkey_challenge 1000 id passkey_purpose_recover
          (run toy no_prf foreign (issue_passkey_challenge drawn passkey_purpose_recover []).1)).0
        ≡ accepted challenge)
unfolding issue_passkey_challenge bytes_eq fill_bytes Base64.encode
consume-issue_example =
    consume-issue toy no_prf drawn passkey_purpose_recover id_bytes [] (respond id zeros stored.id)
      foreign 1000 refl refl refl id_bytes-AreBytes (refl, tt) (omega arith)
