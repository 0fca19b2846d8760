-- ===== src/Passkey/Challenge.antt =====
-- server/src/passkey/mod.rs and models.rs: the pending challenge, the stored credentials, and the
-- state that the handlers share. Instants are seconds, read by the caller.
use rustykvm.Prelude.{
  ℕ, ◌+◌, ◌*◌, String, Bool, true, false, not, ◌&&◌, Option, none, some, List, [], ◌∷◌, str_eq, leb,
  if◌then◌else◌,
}
use rustykvm.Auth.BruteForce.{Kept}
use rustykvm.Prelude.Text.{Text}
use rustykvm.Passkey.CoseKey.{CoseKey}

-- `user_id` and `created_at` are read by nothing and are left out.
pub record PendingChallenge : Type 0 where
  pub challenge_id : String
  pub challenge : String
  pub expires_at : ℕ
  pub is_enrollment : Bool
  pub rp_id : String
  pub credential_id : Option String
  pub setup_token : String

-- CHALLENGE_TTL_MINUTES, in seconds
abbrev pub challenge_ttl : ℕ
challenge_ttl = 5 * 60

abbrev pub is_expired : ℕ → PendingChallenge → Bool
is_expired now c = leb c.expires_at now

abbrev pub new_enrollment_challenge :
    ℕ → String → String → String → Option String → String → PendingChallenge
new_enrollment_challenge now challenge_id challenge rp_id credential_id setup_token = record {
  challenge_id = challenge_id;
  challenge = challenge;
  expires_at = now + challenge_ttl;
  is_enrollment = true;
  rp_id = rp_id;
  credential_id = credential_id;
  setup_token = setup_token;
}

abbrev pub new_login_challenge : ℕ → String → String → String → Option String → PendingChallenge
new_login_challenge now challenge_id challenge rp_id credential_id = record {
  challenge_id = challenge_id;
  challenge = challenge;
  expires_at = now + challenge_ttl;
  is_enrollment = false;
  rp_id = rp_id;
  credential_id = credential_id;
  setup_token = "";
}

-- `transports`, `created` and the time of the update are left out.
pub record PasskeyCredential : Type 0 where
  pub id : String
  pub public_key : CoseKey
  pub counter : ℕ
  pub device_name : Option String
  pub rp_id : String

-- The failed logins, the two locked fields of `PasskeyState`, and the credentials file (`none`: it
-- cannot be loaded).
pub record PasskeyServer : Type 0 where
  pub brute_force : Kept
  pub pending_challenge : Option PendingChallenge
  pub pending_recovery_codes : Option (List Text)
  pub storage : Option (List PasskeyCredential)

-- The pending challenge, if it is live and of the kind wanted.
abbrev pub live : Bool → ℕ → Option PendingChallenge → Option PendingChallenge
live enrollment now none = none
live enrollment now (some c) =
    if not (is_expired now c) && (if enrollment then c.is_enrollment else not c.is_enrollment)
    then some c
    else none

-- `iter().find(|c| c.id == id)`
abbrev pub find : String → List PasskeyCredential → Option PasskeyCredential
find id [] = none
find id (c ∷ cs) = if str_eq c.id id then some c else find id cs

-- The counter of the first credential with the id.
abbrev pub set_counter : String → ℕ → List PasskeyCredential → List PasskeyCredential
set_counter id counter [] = []
set_counter id counter (c ∷ cs) =
    if str_eq c.id id then record c { counter = counter } ∷ cs else c ∷ set_counter id counter cs
