-- ===== src/Provider.antt =====
-- poc/2fa-vault/internal/provider/session.go: passkey challenges and the sessions they open.
pub mod Challenges
pub mod Sessions
pub mod Entries
pub mod Cases
pub mod Authenticated
pub mod History
pub mod Once
pub mod Lives
mod Examples
use arkade_2fa_vault_poc.Prelude.Checks.{
  Checked, accepted, refused, require, ◌>>=◌, ◌>>◌, from_option, >>=-accepted, require-accepted,
  from_option-accepted, accepted-eq, require-true,
}
use arkade_2fa_vault_poc.Prelude.{ℕ, ◌≡◌, refl, Bool, true, false, Option, none, some, List}

-- passkeyChallenge. Times are nanoseconds; texts are their bytes.
pub record Pending : Type 0 where
  pub purpose : List ℕ
  pub challenge : List ℕ
  pub expires_at : ℕ

-- sessionChallenges, a map from ids.
abbrev pub Table : Type 0
Table = List (List ℕ × Pending)

pub data PasskeyError : Type 0 where
  cancelled invalid_purpose load_credential_failed not_enrolled load_envelope_failed : PasskeyError
  not_enabled id_failed challenge_failed verification_busy authentication_failed foreign_passkey :
      PasskeyError

-- What a load gives: an error, nil, or a value.
pub data Loaded (A : Type 0) : Type 0 where
  failed absent : Loaded A
  found : A → Loaded A

abbrev pub from_loaded :
    {A : Type 0} → PasskeyError → PasskeyError → Loaded A → Checked PasskeyError A
from_loaded on_failure on_nil failed = refused on_failure
from_loaded on_failure on_nil absent = refused on_nil
from_loaded on_failure on_nil (found a) = accepted a

pub from_loaded-accepted :
    {A : Type 0} (e d : PasskeyError) (l : Loaded A) (a : A)
    → from_loaded e d l ≡ accepted a
    → l ≡ found a
from_loaded-accepted e d failed a h = cc
from_loaded-accepted e d absent a h = cc
from_loaded-accepted e d (found x) a h = cc
