-- ===== src/Passkey/Protocol.antt =====
-- server/src/passkey/models.rs and handlers.rs: what a login with a passkey takes and answers, its
-- early returns, and the functions of the libraries.
use rustykvm.Prelude.{
  ℕ, String, Bool, true, false, ◌&&◌, Option, none, some, List, [], str_eq, ltb, leb,
}
use rustykvm.Prelude.{str_append, utf8_length}
use rustykvm.Prelude.Result.{FileWrite}
use rustykvm.Prelude.Int.{ℤ}
use rustykvm.Prelude.Assoc.{Assoc}
use rustykvm.Auth.BruteForce.{LoginAttempt, SaveIo}
use rustykvm.Passkey.CoseKey.{Algorithm}
use rustykvm.Passkey.Challenge.{PendingChallenge, PasskeyCredential, find}

-- The members of the client data that are strings, and `crossOrigin` where it is a Boolean.
pub record ClientFields : Type 0 where
  pub challenge : Option String
  pub origin : Option String
  pub type_ : Option String
  pub cross_origin : Option Bool

-- The functions of the libraries.
pub record Library : Type 0 where
  pub decode : String → Option (List ℕ)
  pub from_utf8 : List ℕ → Option String
  pub client_fields : String → Option ClientFields
  pub sha256 : String → List ℕ
  pub verify : Algorithm → List ℕ → List ℕ → List ℕ → Bool
  pub to_string : Assoc LoginAttempt → Option String

-- The answers of the world to one request: the writes, the account, and the token signed for it.
pub record LoginIo : Type 0 where
  pub attempts_saved : SaveIo
  pub passkeys_saved : FileWrite (List PasskeyCredential)
  pub must_change_password : Bool
  pub token : Option String

-- The members of the request that are strings: `id`, and those below `response`.
pub record Assertion : Type 0 where
  pub id : Option String
  pub client_data_json : Option String
  pub authenticator_data : Option String
  pub signature : Option String

-- The text of a failure; that of a locked address is put together from the message and the code.
pub data Refusal : Type 0 where
  failed : (error : String) → Refusal
  locked : ℤ × String → Refusal

-- `passkey_verify_ok` and `passkey_verify_fail`
pub data VerifyResponse : Type 0 where
  verify_ok : (token : String) → (requires_password_change : Bool) → VerifyResponse
  verify_fail : Refusal → VerifyResponse

-- An early return: whether `record_failure` is called before it.
pub record Denial : Type 0 where
  pub counted : Bool
  pub refusal : Refusal

abbrev pub counted_denial : String → Denial
counted_denial error = record { counted = true; refusal = failed error }

abbrev pub plain_denial : String → Denial
plain_denial error = record { counted = false; refusal = failed error }

-- `unwrap_or_default` and `unwrap_or("")`
abbrev pub or_default : Option String → String
or_default none = ""
or_default (some s) = s

abbrev pub or_none : Option (List ℕ) → List ℕ
or_none none = []
or_none (some bytes) = bytes

abbrev pub max_credential_id_length : ℕ
max_credential_id_length = 256

abbrev pub is_id : String → Bool
is_id id = ltb 0 (utf8_length id) && leb (utf8_length id) max_credential_id_length

abbrev pub expects : Option String → String → Bool
expects none id = true
expects (some expected) id = str_eq id expected

-- `storage.credentials.iter().find(..)`, where the file loads.
abbrev pub stored : String → Option (List PasskeyCredential) → Option PasskeyCredential
stored id none = none
stored id (some cs) = find id cs

-- The text whose digest is signed, as the code rebuilds it.
abbrev pub client_text : ClientFields → String
client_text f = str_append "{\"type\":\"" (
    str_append (or_default f.type_) (
      str_append "\",\"challenge\":\"" (
        str_append (or_default f.challenge) (
          str_append "\",\"origin\":\"" (
            str_append (or_default f.origin) (
              str_append "\",\"crossOrigin\":" (
                str_append
                  (elim f.cross_origin [
                    | none ↦ "false"
                    | some true ↦ "true"
                    | some false ↦ "false"
                  ])
                  "}")))))))

abbrev pub expected_origin : PendingChallenge → String
expected_origin c = str_append "https://" c.rp_id

-- What the checks pass on: the credential's id and the new counter.
pub record Accepted : Type 0 where
  pub id : String
  pub counter : ℕ
