-- ===== src/Provider/Lives.antt =====
-- A challenge that IssuePasskeyChallenge of poc/2fa-vault/internal/provider/session.go gave out can be taken.
use arkade_2fa_vault_poc.Prelude.Checks.{
  Checked, accepted, from_option, >>=-accepted, require-accepted, from_option-accepted, accepted-eq,
}
use arkade_2fa_vault_poc.Prelude.{
  ℕ, ◌+◌, ◌*◌, ◌/◌, ◌<◌, ◌≡◌, refl, ap, sym, ◌∙◌, Bool, true, false, not, ◌||◌, some, List, [], ◌∷◌,
  map, length, ltb, ◌==◌, All, arith,
}
use arkade_2fa_vault_poc.Prelude.Bytes.{bytes_eq, bytes_eq_iff, bytes_eq_refl}
use arkade_2fa_vault_poc.Codec.Base64
use arkade_2fa_vault_poc.Codec.Base64.{sextets, digit, AreBytes}
use arkade_2fa_vault_poc.Codec.Hex
use arkade_2fa_vault_poc.Webauthn.{Crypto}
use arkade_2fa_vault_poc.Provider.{
  Pending, Table, PasskeyError, from_loaded, cancelled, invalid_purpose, load_credential_failed,
  not_enrolled, id_failed, challenge_failed,
}
use arkade_2fa_vault_poc.Provider.Challenges.{
  Ambient, PasskeyChallengeResponse, passkey_purpose_recover, passkey_purpose_install,
  passkey_challenge_ttl, find, delete, expire, prepare, check_envelope, respond, new_pending,
  issue_passkey_challenge, is_challenge_id, consume_passkey_challenge,
}
use arkade_2fa_vault_poc.Provider.Sessions.{Credential}
use arkade_2fa_vault_poc.Provider.Entries.{find-delete_other, find-expire}
use arkade_2fa_vault_poc.Provider.Cases.{issue_cases, authenticate_cases}
use arkade_2fa_vault_poc.Provider.History.{Call, issuing, authenticating, run_call, run}

-- The call leaves the id alone: it is before the deadline and draws another id, or asks for another.
abbrev pub Spares : List ℕ → ℕ → Call → Type 0
Spares id deadline (issuing env purpose) =
    (env.now < deadline)
    × ((raw : List ℕ) → env.id_random ≡ some raw → bytes_eq (Base64.encode raw) id ≡ false)
Spares id deadline (authenticating env purpose req) = bytes_eq req.challenge_id id ≡ false

length-sextets : (bytes : List ℕ) → length (sextets bytes) ≡ (4 * length bytes + 2) / 3
unfolding sextets
length-sextets [] = omega arith
length-sextets (a ∷ []) = omega arith
length-sextets (a ∷ b ∷ []) = omega arith
length-sextets (a ∷ b ∷ c ∷ bytes) = omega (arith, length-sextets bytes)

length-map : (f : ℕ → ℕ) (xs : List ℕ) → length (map f xs) ≡ length xs
length-map f [] = refl
length-map f (x ∷ xs) = omega (arith, length-map f xs)

-- What IssuePasskeyChallenge makes of 16 random bytes is an id that consumePasskeyChallenge takes.
pub is_challenge_id-encode :
    (raw : List ℕ) → length raw ≡ 16 → AreBytes raw → is_challenge_id (Base64.encode raw) ≡ true
unfolding is_challenge_id
is_challenge_id-encode raw size bytes =
    let shown : length (Base64.encode raw) ≡ length (sextets raw) =
      unfold Base64.encode in length-map digit (sextets raw) in
    let count = length-sextets raw in
    let long : (length (Base64.encode raw) == 22) ≡ true = ground (arith, shown, count, size) in
    let sized : (length raw == 16) ≡ true = ground (arith, size) in
    rw (long, Base64.decode-encode raw bytes, sized, bytes_eq_refl (Base64.encode raw)) refl

prepare-accepted :
    (env : Ambient) (purpose credential raw challenge : List ℕ)
    → prepare env purpose ≡ accepted (credential, (raw, challenge))
    → (env.id_random ≡ some raw) × (env.challenge_random ≡ some challenge)
unfolding prepare
prepare-accepted env purpose credential raw challenge h =
    let (_, h1) = require-accepted (not env.is_cancelled) cancelled _ _ h in
    let (_, h2) =
      require-accepted
        (bytes_eq purpose passkey_purpose_recover || bytes_eq purpose passkey_purpose_install)
        invalid_purpose _ _ h1 in
    let (c, _, h3) =
      >>=-accepted (from_loaded load_credential_failed not_enrolled env.credential) _ _ h2 in
    let (_, _, h4) = >>=-accepted (check_envelope env purpose) _ _ h3 in
    let (id_raw, id_read, h5) = >>=-accepted (from_option id_failed env.id_random) _ _ h4 in
    let (drawn, read, h6) =
      >>=-accepted (from_option challenge_failed env.challenge_random) _ _ h5 in
    let same_id : id_raw ≡ raw = cc h6 in
    let same : drawn ≡ challenge = cc h6 in
    (
      from_option-accepted id_failed env.id_random id_raw id_read
          ∙ ap (λ (x : List ℕ). some x) same_id,
      from_option-accepted challenge_failed env.challenge_random drawn read
          ∙ ap (λ (x : List ℕ). some x) same,
    )

module _ (crypto : Crypto) (contains_prf : List ℕ → Bool) (id : List ℕ) (p : Pending) where
  -- A call that spares a pending challenge keeps it.
  find-run_call :
      (c : Call) (table : Table)
      → find id table ≡ some p
      → Spares id p.expires_at c
      → find id (run_call crypto contains_prf c table) ≡ some p
  unfolding run_call
  find-run_call (issuing env purpose) table h (before, other) =
      let kept = find-expire env.now id table p h before in
      issue_cases
        (λ (out : Checked PasskeyError PasskeyChallengeResponse × Table). find id out.1 ≡ some p)
        env purpose table (λ e. h) kept
        (λ credential raw challenge prepared _.
          let drawn = prepare-accepted env purpose credential raw challenge prepared in
          let differs = other raw drawn.0 in
          let below =
            find-delete_other id (Base64.encode raw) (expire env.now table) differs ∙ kept in
          unfold find in rw differs below)
  find-run_call (authenticating env purpose req) table h other =
      let kept = find-delete_other id req.challenge_id table other ∙ h in
      authenticate_cases crypto contains_prf
        (λ (out : Checked PasskeyError Credential × Table). find id out.1 ≡ some p) env purpose req
        table (λ e. h) kept (λ _ _. kept)

  find-run :
      (calls : List Call) (table : Table)
      → find id table ≡ some p
      → All (Spares id p.expires_at) calls
      → find id (run crypto contains_prf calls table) ≡ some p
  unfolding run
  find-run [] table h spared = h
  find-run (c ∷ calls) table h (first, rest) =
      find-run calls (run_call crypto contains_prf c table) (find-run_call c table h first) rest

consume-find :
    (now : ℕ) (id purpose : List ℕ) (p : Pending) (table : Table)
    → is_challenge_id id ≡ true
    → find id table ≡ some p
    → p.purpose ≡ purpose
    → now < p.expires_at
    → (consume_passkey_challenge now id purpose table).0 ≡ accepted p.challenge
unfolding consume_passkey_challenge
consume-find now id purpose p table format h same before =
    let equal = (bytes_eq_iff p.purpose purpose).1 same in
    let fresh : ltb now p.expires_at ≡ true = ground (arith, before) in
    rw (format, h, equal, fresh) refl

-- A challenge that was given out, from 16 random bytes for its id, is taken with the purpose it was made for
-- for two minutes, after any calls that neither draw nor present its id and are not made later: what is
-- taken is what the response carries in hexadecimal.
pub consume-issue :
    (crypto : Crypto) (contains_prf : List ℕ → Bool) (env : Ambient) (purpose raw : List ℕ)
    (table : Table) (r : PasskeyChallengeResponse) (calls : List Call) (now : ℕ)
    → (issue_passkey_challenge env purpose table).0 ≡ accepted r
    → env.id_random ≡ some raw
    → length raw ≡ 16
    → AreBytes raw
    → All (Spares r.challenge_id (env.now + passkey_challenge_ttl)) calls
    → now < env.now + passkey_challenge_ttl
    → (challenge : List ℕ) × (r.challenge ≡ Hex.encode challenge)
      × ((consume_passkey_challenge now r.challenge_id purpose
            (run crypto contains_prf calls (issue_passkey_challenge env purpose table).1)).0
          ≡ accepted challenge)
consume-issue crypto contains_prf env purpose raw table r calls now given drawn size bytes spared
      before =
    issue_cases
      (λ (out : Checked PasskeyError PasskeyChallengeResponse × Table).
        out.0 ≡ accepted r
        → (challenge : List ℕ) × (r.challenge ≡ Hex.encode challenge)
          × ((consume_passkey_challenge now r.challenge_id purpose
                (run crypto contains_prf calls out.1)).0
              ≡ accepted challenge))
      env purpose table (λ e h. cc h) (λ h. cc h) stored given
  where
    stored :
        (credential raw' challenge : List ℕ)
        → prepare env purpose ≡ accepted (credential, (raw', challenge))
        → length (expire env.now table) < 64
        → ◌≡◌ {A = Checked PasskeyError PasskeyChallengeResponse}
            (accepted (respond (Base64.encode raw') challenge credential))
            (accepted r)
        → (challenge' : List ℕ) × (r.challenge ≡ Hex.encode challenge')
          × ((consume_passkey_challenge now r.challenge_id purpose (
                run crypto contains_prf calls (
                  (Base64.encode raw', new_pending env.now purpose challenge)
                  ∷ delete (Base64.encode raw') (expire env.now table)))).0
              ≡ accepted challenge')
    stored credential raw' challenge prepared _ same =
        let key = Base64.encode raw' in
        let p = new_pending env.now purpose challenge in
        let kept = delete key (expire env.now table) in
        let made : respond key challenge credential ≡ r = accepted-eq _ r same in
        let id_of : key ≡ r.challenge_id =
          ap (λ (x : PasskeyChallengeResponse). x.challenge_id) made in
        let parts = prepare-accepted env purpose credential raw' challenge prepared in
        let both : some raw ≡ some raw' = sym drawn ∙ parts.0 in
        let equal : raw ≡ raw' = cc both in
        let format : is_challenge_id key ≡ true =
          rw (← equal) (is_challenge_id-encode raw size bytes) in
        let pending : find key ((key, p) ∷ kept) ≡ some p =
          unfold find in rw (bytes_eq_refl key) refl in
        let spares_key : All (Spares key p.expires_at) calls = rw id_of spared in
        let lives = find-run crypto contains_prf key p calls ((key, p) ∷ kept) pending spares_key in
        let taken =
          consume-find now key purpose p (run crypto contains_prf calls ((key, p) ∷ kept)) format
            lives refl before in
        (
          challenge,
          sym (ap (λ (x : PasskeyChallengeResponse). x.challenge) made),
          rw (← id_of) taken,
        )
