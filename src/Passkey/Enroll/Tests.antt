-- ===== src/Passkey/Enroll/Tests.antt =====
-- Runs of the enrollment, and the theorems at concrete inputs.
use rustykvm.Prelude.{
  ℕ, String, ◌≡◌, refl, true, false, none, some, List, [], ◌∷◌, ◌++◌, arith, str_eq, if◌then◌else◌,
  replicate,
}
use rustykvm.Prelude.Int.{pos}
use rustykvm.Prelude.Result.{complete}
use rustykvm.Passkey.Cbor.{read_int, read_bytes}
use rustykvm.Passkey.CoseKey.{read_field, from_cbor}
use rustykvm.Passkey.Challenge.{PasskeyCredential, PasskeyServer}
use rustykvm.Passkey.Protocol.{ClientFields, Library}
use rustykvm.Passkey.Enroll.Origin.{page_origin_refused}
use rustykvm.Passkey.Attestation.{extract_public_key_from_attestation}
use rustykvm.Passkey.Enroll.{
  SetupIo, absent, text, EnrollRequest, no_codes, credentials_of, EnrollIo, Enrollment,
  enroll_complete_handler, passkey_setup_handler,
}
use rustykvm.Passkey.Enroll.Checks.{IsEnrollment, enroll_sound, text_attestation_refused}

-- An attestation that the reader takes: key 2, a value of 39 bytes behind the header 65.
abbrev attestation : List ℕ
attestation = 0xa3 ∷ 2 ∷ 65 ∷ 39 ∷ (replicate 36 0 ++ (0xa1 ∷ 0 ∷ 0 ∷ []))

abbrev lib : Library
lib = record {
  decode = λ s.
      if str_eq s "readable"
      then some attestation
      else if str_eq s "packed"
      then some (0xa3 ∷ 0x63 ∷ replicate 40 0)
      else some (1 ∷ []);
  from_utf8 = λ _. some "json";
  client_fields = λ _. some (record {
    challenge = some "c1";
    origin = some "https://https://kvm.ts.net";
    type_ = some "webauthn.create";
    cross_origin = none;
  });
  sha256 = λ _. [];
  verify = λ _ _ _ _. true;
  to_string = λ _. none;
}

abbrev io : EnrollIo
io = record { passkeys_saved = complete; codes_saved = complete }

abbrev setup_io : SetupIo
setup_io = record {
  tailscale_installed = true;
  tailscale_connected = true;
  tailscale_funnel_active = true;
  funnel_url = some "https://kvm.ts.net";
  funnel_enabled = false;
  funnel_ready = none;
  challenge_id = "id1";
  setup_token = "secret";
  challenge = "c1";
  qr_code = λ s. some s;
}

abbrev empty : PasskeyServer
empty = record {
  brute_force = record {
    memory = record {
      attempts = [];
      security = record { login_lockout_duration = pos 300; login_max_failures = pos 5 };
    };
    file = none;
  };
  pending_challenge = none;
  pending_recovery_codes = none;
  storage = none;
}

abbrev started : Enrollment
started = record { server = (passkey_setup_handler setup_io 100 empty).0; codes_file = none }

abbrev request_with : String → EnrollRequest
request_with attestation_object = record {
  setup_token = text "secret";
  setup_token_snake = absent;
  challenge_id = none;
  id = some "key";
  client_data_json = some "client";
  attestation_object = some attestation_object;
  device_name = none;
}

abbrev numbers : ℕ → ℕ → ℕ
numbers k i = k

enrolls :
    (enroll_complete_handler lib io numbers 150 (request_with "readable") started).1.success ≡ true
unfolding enroll_complete_handler passkey_setup_handler extract_public_key_from_attestation read_int
    read_bytes read_field from_cbor
enrolls = refl

too_late :
    (enroll_complete_handler lib io numbers 400 (request_with "readable") started).1 ≡ no_codes
unfolding enroll_complete_handler passkey_setup_handler
too_late = refl

enroll_sound_example :
    let after = (enroll_complete_handler lib io numbers 150 (request_with "readable") started).0 in
    (cred : PasskeyCredential) × IsEnrollment lib 150 (request_with "readable") started.server cred
    × (after.server.pending_challenge ≡ none)
    × (after.server.storage ≡ some (credentials_of started.server.storage ++ (cred ∷ [])))
enroll_sound_example = enroll_sound lib io numbers 150 (request_with "readable") started enrolls

text_attestation_refused_example :
    enroll_complete_handler lib io numbers 150 (request_with "packed") started ≡ (started, no_codes)
text_attestation_refused_example =
    text_attestation_refused lib io numbers 150 (request_with "packed") started (omega arith)

-- The same server, with client data that name the page's own origin.
abbrev own_origin : ClientFields
own_origin = record {
  challenge = some "c1";
  origin = some "https://kvm.ts.net";
  type_ = some "webauthn.create";
  cross_origin = none;
}

abbrev own_origin_lib : Library
own_origin_lib = record lib { client_fields = λ _. some own_origin }

page_origin_refused_example :
    enroll_complete_handler own_origin_lib io numbers 150 (request_with "readable") started
    ≡ (started, no_codes)
unfolding passkey_setup_handler
page_origin_refused_example =
    page_origin_refused own_origin_lib setup_io io numbers 100 150 empty
      (record {
        funnel_url = "https://kvm.ts.net";
        enrollment_url = "https://kvm.ts.net/passkey/enroll/id1?token=secret";
        qr_code = "https://kvm.ts.net/passkey/enroll/id1?token=secret";
        expires_at = 400;
        challenge_id = "id1";
        setup_token = "secret";
      })
      (request_with "readable") started own_origin refl refl refl refl
