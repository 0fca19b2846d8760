-- ===== src/Passkey/Enroll.antt =====
-- server/src/passkey/handlers.rs: `passkey_setup_handler`, `enroll_complete_handler` and
-- `setup_recovery_codes_handler`. What Tailscale, the QR encoder and the random numbers answer are
-- arguments, and so are the functions of the libraries.
pub mod Checks
pub mod Origin
mod Tests
use rustykvm.Prelude.{
  ℕ, zero, suc, ◌+◌, ◌-◌, ◌*◌, ◌/◌, ◌%◌, ◌^◌, ◌≤◌, ◌<◌, min, String, ◌≡◌, refl, sym, ap, ◌∙◌, ◌≢◌,
  ◌↔◌, ◌⊎◌, inl, inr, Bool, true, false, not, ◌&&◌, ◌||◌, Option, none, some, List, [], ◌∷◌, ◌++◌,
  map, arith, eq_iff, str_eq, ltb, leb, ◌==◌, if◌then◌else◌, ltb→lt, lt→ltb, ltb_of_le, leb→le,
  ==_iff, tests, Bool-cases, Option-cases, is_some_and, length, get_elem?, get_elem?-of_lt, get_or,
  take, drop, replicate, any, all, retain, All, sum, sum-append, list_eq, list_eq→eq, list_eq_refl,
  length-append, length-take, length-drop, take-append-drop, length-retain-le,
}
use rustykvm.Prelude.{str_append, utf8_length}
use rustykvm.Prelude.Result.{FileWrite, is_complete, written_file}
use rustykvm.Prelude.Text.{Text}
use rustykvm.Passkey.CoseKey.{CoseKey}
use rustykvm.Passkey.Challenge.{
  PendingChallenge, PasskeyCredential, PasskeyServer, live, new_enrollment_challenge, challenge_ttl,
}
use rustykvm.Passkey.Protocol.{ClientFields, Library, or_default, or_none, expected_origin}
use rustykvm.Passkey.Login.{client_json, decoded}
use rustykvm.Passkey.Attestation.{extract_public_key_from_attestation}
use rustykvm.Passkey.Recovery.{RecoveryCode, generate_codes, codes_for_display}

-- What the setup learns from Tailscale and the random source, and the QR encoder.
pub record SetupIo : Type 0 where
  pub tailscale_installed : Bool
  pub tailscale_connected : Bool
  pub tailscale_funnel_active : Bool
  pub funnel_url : Option String
  pub funnel_enabled : Bool
  pub funnel_ready : Option String
  pub challenge_id : String
  pub setup_token : String
  pub challenge : String
  pub qr_code : String → Option String

-- The `SetupResponse` of a success.
pub record SetupResponse : Type 0 where
  pub funnel_url : String
  pub enrollment_url : String
  pub qr_code : String
  pub expires_at : ℕ
  pub challenge_id : String
  pub setup_token : String

abbrev pub setup_url : SetupIo → Option String
setup_url io =
    if io.tailscale_funnel_active
    then some (or_default io.funnel_url)
    else if not io.funnel_enabled
    then none
    else io.funnel_ready

abbrev pub enrollment_url_of : SetupIo → String → String
enrollment_url_of io funnel_url = str_append funnel_url (
    str_append "/passkey/enroll/"
      (str_append io.challenge_id (str_append "?token=" io.setup_token)))

-- The challenge is stored before the QR code is made. `none` is `empty_setup_response()`.
pub begin_enrollment :
    SetupIo → ℕ → PasskeyServer → Option String → PasskeyServer × Option SetupResponse
begin_enrollment io now s none = (s, none)
begin_enrollment io now s (some funnel_url) =
    let enrollment_url = enrollment_url_of io funnel_url in
    (
      record s {
        pending_recovery_codes = none;
        pending_challenge = some (
            new_enrollment_challenge now io.challenge_id io.challenge funnel_url none
              io.setup_token);
      },
      elim (io.qr_code enrollment_url) [
        | none ↦ none
        | some qr ↦ some (record {
          funnel_url = funnel_url;
          enrollment_url = enrollment_url;
          qr_code = qr;
          expires_at = now + challenge_ttl;
          challenge_id = io.challenge_id;
          setup_token = io.setup_token;
        })
      ],
    )

unfoldable pub passkey_setup_handler :
    SetupIo → ℕ → PasskeyServer → PasskeyServer × Option SetupResponse
unfolding begin_enrollment
passkey_setup_handler io now s =
    if not io.tailscale_installed
    then (s, none)
    else if not io.tailscale_connected
    then (s, none)
    else begin_enrollment io now s (setup_url io)

-- A member of the request: missing, no string, or a string.
pub data Member : Type 0 where
  absent other : Member
  text : String → Member

abbrev pub as_str : Member → Option String
as_str absent = none
as_str other = none
as_str (text s) = some s

-- `get("setupToken").or_else(|| get("setup_token"))`
abbrev pub or_else : Member → Member → Member
or_else absent second = second
or_else other second = other
or_else (text s) second = text s

pub record EnrollRequest : Type 0 where
  pub setup_token : Member
  pub setup_token_snake : Member
  pub challenge_id : Option String
  pub id : Option String
  pub client_data_json : Option String
  pub attestation_object : Option String
  pub device_name : Option String

abbrev pub token_of : EnrollRequest → String
token_of req = or_default (as_str (or_else req.setup_token req.setup_token_snake))

abbrev pub is_some_eq : Option String → String → Bool
is_some_eq none s = false
is_some_eq (some r) s = str_eq r s

-- `if let Some(req_id) = ..`: an absent id passes.
abbrev pub is_none_or_eq : Option String → String → Bool
is_none_or_eq none s = true
is_none_or_eq (some r) s = str_eq r s

-- `verify_webauthn_client_data` on the parsed members.
abbrev pub verify_webauthn_client_data : Option ClientFields → PendingChallenge → String → Bool
verify_webauthn_client_data none c expected_type = false
verify_webauthn_client_data (some f) c expected_type =
    is_some_eq f.challenge c.challenge
    && is_some_eq f.type_ expected_type
    && is_some_eq f.origin (expected_origin c)

abbrev pub credentials_of : Option (List PasskeyCredential) → List PasskeyCredential
credentials_of none = []
credentials_of (some cs) = cs

abbrev pub new_credential : PendingChallenge → EnrollRequest → CoseKey → PasskeyCredential
new_credential c req key = record {
  id = or_default req.id;
  public_key = key;
  counter = 0;
  device_name = req.device_name;
  rp_id = c.rp_id;
}

-- `RecoveryCodesResponse`
pub record RecoveryCodesResponse : Type 0 where
  pub success : Bool
  pub codes : List Text

abbrev pub no_codes : RecoveryCodesResponse
no_codes = record { success = false; codes = [] }

-- The writes of the two files.
pub record EnrollIo : Type 0 where
  pub passkeys_saved : FileWrite (List PasskeyCredential)
  pub codes_saved : FileWrite (List RecoveryCode)

-- The server, and the file of recovery codes.
pub record Enrollment : Type 0 where
  pub server : PasskeyServer
  pub codes_file : Option (List RecoveryCode)

module _ (lib : Library) where
  -- The guards on a live challenge, all with the same answer.
  pub is_enrollable : EnrollRequest → PendingChallenge → Bool
  is_enrollable req c =
      not (utf8_length (token_of req) == 0)
      && str_eq (token_of req) c.setup_token
      && is_none_or_eq req.challenge_id c.challenge_id
      && not (utf8_length (or_default req.id) == 0)
      && verify_webauthn_client_data (lib.client_fields (client_json lib req.client_data_json)) c
          "webauthn.create"
      && not (length (decoded lib req.attestation_object) == 0)

  pub check_enrollment : EnrollRequest → Option PendingChallenge → Option PasskeyCredential
  unfolding is_enrollable
  check_enrollment req none = none
  check_enrollment req (some c) =
      if not (is_enrollable req c)
      then none
      else (elim (extract_public_key_from_attestation (decoded lib req.attestation_object)) [
        | none ↦ none
        | some key ↦ some (new_credential c req key)
      ])

  -- `random k i` is the number for the place `i` of the code `k`.
  pub store_credential :
      EnrollIo
      → (ℕ → ℕ → ℕ)
      → Enrollment
      → Option PasskeyCredential
      → Enrollment × RecoveryCodesResponse
  store_credential io random e none = (e, no_codes)
  store_credential io random e (some cred) =
      let codes = generate_codes random 0 4 in
      let storage =
        written_file io.passkeys_saved (credentials_of e.server.storage ++ (cred ∷ [])) in
      if not (is_complete io.passkeys_saved)
      then (
        record { server = record e.server { storage = storage }; codes_file = e.codes_file },
        no_codes,
      )
      else (
        record {
          server = record e.server {
            storage = storage;
            pending_recovery_codes = some (codes_for_display codes);
            pending_challenge = none;
          };
          codes_file = written_file io.codes_saved codes;
        },
        record { success = true; codes = codes_for_display codes },
      )

  unfoldable pub enroll_complete_handler :
      EnrollIo → (ℕ → ℕ → ℕ) → ℕ → EnrollRequest → Enrollment → Enrollment × RecoveryCodesResponse
  unfolding check_enrollment store_credential
  enroll_complete_handler io random now req e =
      store_credential io random e (check_enrollment req (live true now e.server.pending_challenge))

-- The codes are taken: `pending.take().unwrap_or_default()`.
unfoldable pub setup_recovery_codes_handler : PasskeyServer → PasskeyServer × RecoveryCodesResponse
setup_recovery_codes_handler s =
    let codes : List Text = elim s.pending_recovery_codes [ none ↦ [] | some codes ↦ codes ] in
    (
      record s { pending_recovery_codes = none },
      record { success = not (length codes == 0); codes = codes },
    )
