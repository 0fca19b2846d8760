-- ===== src/Passkey/Enroll/Checks.antt =====
-- What an enrollment that succeeds has been checked for, and what it leaves.
use rustykvm.Prelude.{
  ℕ, ◌≤◌, ◌<◌, String, ◌≡◌, refl, ap, inl, inr, true, Option, none, some, [], ◌∷◌, ◌++◌, arith,
  eq_iff, Bool-cases, Option-cases, length,
}
use rustykvm.Prelude.{utf8_length}
use rustykvm.Prelude.Result.{is_complete, written_file-is_complete}
use rustykvm.Passkey.CoseKey.{CoseKey}
use rustykvm.Passkey.Bytes.{byte}
use rustykvm.Passkey.Challenge.{PendingChallenge, PasskeyCredential, PasskeyServer, live}
use rustykvm.Passkey.Protocol.{ClientFields, Library, expected_origin}
use rustykvm.Passkey.Login.{client_json, decoded}
use rustykvm.Passkey.Attestation.{extract_public_key_from_attestation, text_keys_refused}
use rustykvm.Passkey.Recovery.{generate_codes, codes_for_display}
use rustykvm.Passkey.Enroll.{
  EnrollRequest, token_of, is_some_eq, verify_webauthn_client_data, credentials_of, new_credential,
  no_codes, EnrollIo, Enrollment, is_enrollable, check_enrollment, store_credential,
  enroll_complete_handler, setup_recovery_codes_handler,
}

is_some_eq-true : (o : Option String) (s : String) → is_some_eq o s ≡ true → o ≡ some s
is_some_eq-true none s e = cc
is_some_eq-true (some r) s e = ap some ((eq_iff r s).0 e)

module _ (lib : Library) where
  -- The client data names the challenge, its origin and the creation of a credential.
  pub record IsCreation (c : PendingChallenge) (req : EnrollRequest) : Type 0 where
    pub fields : ClientFields
    pub reads : lib.client_fields (client_json lib req.client_data_json) ≡ some fields
    pub challenge : fields.challenge ≡ some c.challenge
    pub origin : fields.origin ≡ some (expected_origin c)
    pub type_ : fields.type_ ≡ some "webauthn.create"

  client_data-ok :
      (c : PendingChallenge) (req : EnrollRequest) (o : Option ClientFields)
      → lib.client_fields (client_json lib req.client_data_json) ≡ o
      → verify_webauthn_client_data o c "webauthn.create" ≡ true
      → IsCreation c req
  client_data-ok c req none reads e = cc
  client_data-ok c req (some f) reads e = record {
    fields = f;
    reads = reads;
    challenge = is_some_eq-true f.challenge c.challenge (ground arith);
    origin = is_some_eq-true f.origin (expected_origin c) (ground arith);
    type_ = is_some_eq-true f.type_ "webauthn.create" (ground arith);
  }

  -- The request carries the secret of the pending enrollment, and the key of the new credential.
  pub record IsEnrollment (now : ℕ) (req : EnrollRequest) (s : PasskeyServer)
      (cred : PasskeyCredential) : Type 0 where
    pub challenge : PendingChallenge
    pub key : CoseKey
    pub is_live : live true now s.pending_challenge ≡ some challenge
    pub secret : token_of req ≡ challenge.setup_token
    pub some_secret : 0 < utf8_length challenge.setup_token
    pub creation : IsCreation challenge req
    pub attested :
        extract_public_key_from_attestation (decoded lib req.attestation_object) ≡ some key
    pub stored : cred ≡ new_credential challenge req key

  check_enrollment-some :
      (now : ℕ) (req : EnrollRequest) (s : PasskeyServer) (o : Option PendingChallenge)
      {cred : PasskeyCredential}
      → live true now s.pending_challenge ≡ o
      → check_enrollment lib req o ≡ some cred
      → IsEnrollment now req s cred
  unfolding check_enrollment is_enrollable
  check_enrollment-some now req s none is_live e = cc
  check_enrollment-some now req s (some c) {cred} is_live e =
      let passed : is_enrollable lib req c ≡ true = ground arith in
      let same : token_of req ≡ c.setup_token =
        (eq_iff (token_of req) c.setup_token).0 (ground arith) in
      let nonempty : 0 < utf8_length (token_of req) = ground arith in
      elim (Option-cases
        (extract_public_key_from_attestation (decoded lib req.attestation_object))) [
          | inl missing ↦ absurd (ground arith)
          | inr (key, attested) ↦ record {
            challenge = c;
            key = key;
            is_live = is_live;
            secret = same;
            some_secret = rw same at nonempty;
            creation =
                client_data-ok c req (lib.client_fields (client_json lib req.client_data_json)) refl
                  (ground arith);
            attested = attested;
            stored = ground arith;
          }
        ]

  -- The three ways in which the storing ends.
  store_credential-success :
      (io : EnrollIo) (random : ℕ → ℕ → ℕ) (e : Enrollment) (o : Option PasskeyCredential)
      → (store_credential lib io random e o).1.success ≡ true
      → (cred : PasskeyCredential) × (o ≡ some cred)
        × ((store_credential lib io random e o).0.server.pending_challenge ≡ none)
        × ((store_credential lib io random e o).0.server.storage
            ≡ some (credentials_of e.server.storage ++ (cred ∷ [])))
        × ((store_credential lib io random e o).0.server.pending_recovery_codes
            ≡ some (store_credential lib io random e o).1.codes)
  unfolding store_credential
  store_credential-success io random e none h = cc
  store_credential-success io random e (some cred) h =
      elim (Bool-cases (is_complete io.passkeys_saved)) [
        | inl written ↦ (
          cred,
          refl,
          rw written refl,
          rw written (
              written_file-is_complete io.passkeys_saved
                (credentials_of e.server.storage ++ (cred ∷ [])) written),
          rw written refl,
        )
        | inr lost ↦ absurd (ground arith)
      ]

  -- An enrollment that succeeds was made for the pending enrollment challenge before it expired, with
  -- its secret, client data that name the challenge and its origin, and a key read from the
  -- attestation. It uses the challenge up and adds one credential, with that key and counter 0, behind
  -- those that were stored.
  pub enroll_sound :
      (io : EnrollIo) (random : ℕ → ℕ → ℕ) (now : ℕ) (req : EnrollRequest) (e : Enrollment)
      → (enroll_complete_handler lib io random now req e).1.success ≡ true
      → let after = (enroll_complete_handler lib io random now req e).0 in
        (cred : PasskeyCredential) × IsEnrollment now req e.server cred
        × (after.server.pending_challenge ≡ none)
        × (after.server.storage ≡ some (credentials_of e.server.storage ++ (cred ∷ [])))
  unfolding enroll_complete_handler
  enroll_sound io random now req e h =
      let pending = live true now e.server.pending_challenge in
      let (cred, checked, gone, stored, _) =
        store_credential-success io random e (check_enrollment lib req pending) h in
      (cred, check_enrollment-some now req e.server pending refl checked, gone, stored)

  store_credential-shown :
      (io : EnrollIo) (random : ℕ → ℕ → ℕ) (e : Enrollment) (o : Option PasskeyCredential)
      → (store_credential lib io random e o).1.success ≡ true
      → 0 < length (store_credential lib io random e o).1.codes
  unfolding store_credential generate_codes codes_for_display
  store_credential-shown io random e none h = cc
  store_credential-shown io random e (some cred) h =
      elim (Bool-cases (is_complete io.passkeys_saved)) [
        | inl written ↦ rw written (omega arith)
        | inr lost ↦ absurd (ground arith)
      ]

  -- After an enrollment that succeeds, the first call of `setup_recovery_codes_handler` answers the
  -- codes that the enrollment answered, and the second call answers none.
  pub codes_shown_once :
      (io : EnrollIo) (random : ℕ → ℕ → ℕ) (now : ℕ) (req : EnrollRequest) (e : Enrollment)
      → (enroll_complete_handler lib io random now req e).1.success ≡ true
      → let (after, answer) = enroll_complete_handler lib io random now req e in
        let first = setup_recovery_codes_handler after.server in
        (first.1 ≡ record { success = true; codes = answer.codes })
        × ((setup_recovery_codes_handler first.0).1 ≡ no_codes)
  unfolding enroll_complete_handler setup_recovery_codes_handler
  codes_shown_once io random now req e h =
      let o = check_enrollment lib req (live true now e.server.pending_challenge) in
      let (_, _, _, _, shown) = store_credential-success io random e o h in
      let some_codes = store_credential-shown io random e o h in
      (rw shown (ground (arith, some_codes)), refl)

  no_key-refused :
      (req : EnrollRequest) (o : Option PendingChallenge)
      → extract_public_key_from_attestation (decoded lib req.attestation_object) ≡ none
      → check_enrollment lib req o ≡ none
  unfolding check_enrollment
  no_key-refused req none h = refl
  no_key-refused req (some c) h = rw h (ground arith)

  -- An enrollment whose attestation object has a first key with a CBOR header of 28 or more, as that of
  -- every text has, is refused, and nothing changes: no attestation object of WebAuthn is enrolled.
  pub text_attestation_refused :
      (io : EnrollIo) (random : ℕ → ℕ → ℕ) (now : ℕ) (req : EnrollRequest) (e : Enrollment)
      → 28 ≤ byte (decoded lib req.attestation_object) 1
      → enroll_complete_handler lib io random now req e ≡ (e, no_codes)
  unfolding enroll_complete_handler store_credential
  text_attestation_refused io random now req e h =
      let refused =
        no_key-refused req (live true now e.server.pending_challenge)
          (text_keys_refused (decoded lib req.attestation_object) h) in
      rw refused refl
