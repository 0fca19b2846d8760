-- ===== src/Passkey/Login.antt =====
-- server/src/passkey/handlers.rs: `login_challenge_inner` and `login_verify_inner`. What base64,
-- serde_json, sha2 and ring compute are parameters, and so are the answers of the files and of the
-- token's signing. Log messages are left out.
pub mod Checks
pub mod Replay
mod Tests
use rustykvm.Prelude.{
  ℕ, zero, suc, ◌+◌, ◌-◌, ◌*◌, ◌/◌, ◌%◌, ◌^◌, ◌≤◌, ◌<◌, min, String, ◌≡◌, refl, sym, ap, ◌∙◌, ◌≢◌,
  ◌↔◌, ◌⊎◌, inl, inr, Bool, true, false, not, ◌&&◌, ◌||◌, Option, none, some, List, [], ◌∷◌, ◌++◌,
  map, arith, eq_iff, str_eq, ltb, leb, ◌==◌, if◌then◌else◌, ltb→lt, lt→ltb, ltb_of_le, leb→le,
  ==_iff, tests, Bool-cases, Option-cases, is_some_and, length, get_elem?, get_elem?-of_lt, get_or,
  take, drop, replicate, any, all, retain, All, sum, sum-append, list_eq, list_eq→eq, list_eq_refl,
  length-append, length-take, length-drop, take-append-drop, length-retain-le,
}
use rustykvm.Prelude.{str_append, utf8_length}
use rustykvm.Prelude.Result.{Result, ok, err, written_file}
use rustykvm.Prelude.Int.{ℤ}
use rustykvm.Prelude.Assoc.{Assoc}
use rustykvm.Auth.BruteForce.{LoginAttempt, SaveIo, Kept, check, record_failure_kept, clear_kept}
use rustykvm.Passkey.Bytes.{bit}
use rustykvm.Passkey.AuthData.{AuthenticatorData, parse}
use rustykvm.Passkey.CoseKey.{Algorithm, verify_signature}
use rustykvm.Passkey.Protocol.{
  Accepted, Assertion, ClientFields, Denial, Library, LoginIo, Refusal, VerifyResponse, client_text,
  counted_denial, expected_origin, expects, failed, is_id, locked, max_credential_id_length,
  or_default, or_none, plain_denial, stored, verify_fail, verify_ok,
}
use rustykvm.Passkey.Challenge.{
  PendingChallenge, PasskeyCredential, PasskeyServer, live, find, set_counter, new_login_challenge,
}

module _ (lib : Library) where
  abbrev pub decoded : Option String → List ℕ
  decoded s = or_none (lib.decode (or_default s))

  abbrev pub client_json : Option String → String
  client_json none = ""
  client_json (some s) = or_default (lib.from_utf8 (or_none (lib.decode s)))

  -- The client data against the challenge, and the hash that was signed.
  pub hash_of : PendingChallenge → Option ClientFields → Result Denial (List ℕ)
  hash_of c none = err (plain_denial "Invalid client data")
  hash_of c (some f) =
      if not (str_eq (or_default f.challenge) c.challenge)
      then err (plain_denial "Invalid challenge")
      else if not (str_eq (or_default f.origin) (expected_origin c))
      then err (plain_denial "Invalid origin")
      else ok (lib.sha256 (client_text f))

  pub check_signature :
      Assertion
      → PasskeyCredential
      → AuthenticatorData
      → Result Denial (List ℕ)
      → Result Denial Accepted
  check_signature req cred ad (err denial) = err denial
  check_signature req cred ad (ok hash) =
      if not (
        verify_signature lib.verify cred.public_key (decoded req.authenticator_data ++ hash)
          (decoded req.signature))
      then err (counted_denial "Signature verification failed")
      else ok (record { id = or_default req.id; counter = ad.counter })

  pub check_auth_data :
      PendingChallenge
      → Assertion
      → PasskeyCredential
      → Option AuthenticatorData
      → Result Denial Accepted
  unfolding check_signature hash_of
  check_auth_data c req cred none = err (plain_denial "Invalid authenticator data")
  check_auth_data c req cred (some ad) =
      if leb ad.counter cred.counter
      then err (plain_denial "Credential may have been cloned")
      else if not (bit ad.flags 0)
      then err (plain_denial "User verification required")
      else check_signature req cred ad
          (hash_of c (lib.client_fields (client_json req.client_data_json)))

  pub check_credential :
      PendingChallenge → Assertion → Option PasskeyCredential → Result Denial Accepted
  unfolding check_auth_data
  check_credential c req none = err (counted_denial "Unknown credential")
  check_credential c req (some cred) =
      check_auth_data c req cred (parse (decoded req.authenticator_data))

  pub check_request : Assertion → PasskeyServer → Option PendingChallenge → Result Denial Accepted
  unfolding check_credential
  check_request req s none = err (counted_denial "Invalid or expired challenge")
  check_request req s (some c) =
      let id = or_default req.id in
      if not (is_id id)
      then err (counted_denial "Invalid credential")
      else if (length (decoded req.authenticator_data) == 0)
          || (length (decoded req.signature) == 0)
      then err (counted_denial "Invalid assertion data")
      else if not (expects c.credential_id id)
      then err (plain_denial "Invalid credential for this challenge")
      else check_credential c req (stored id s.storage)

  -- Everything before the second reading of the credentials file.
  unfoldable pub judge : ℕ → String → Assertion → PasskeyServer → Result Denial Accepted
  unfolding check_request
  judge now ip req s = elim (check s.brute_force.memory now ip) [
    | some e ↦ err (record { counted = false; refusal = locked e })
    | none ↦ check_request req s (live false now s.pending_challenge)
  ]

  -- The early return of a denial.
  pub deny : LoginIo → ℕ → String → Denial → PasskeyServer → PasskeyServer × VerifyResponse
  deny io now ip denial s = (
    if denial.counted
        then record s {
          brute_force =
              (record_failure_kept lib.to_string io.attempts_saved s.brute_force now ip).0;
        }
        else s,
    verify_fail denial.refusal,
  )

  -- From the second reading of the file on.
  pub commit : LoginIo → String → Accepted → PasskeyServer → PasskeyServer × VerifyResponse
  commit io ip a s = elim s.storage [
    | none ↦ (s, verify_fail (failed "Internal error"))
    | some cs ↦ (
      record s {
        storage = written_file io.passkeys_saved (set_counter a.id a.counter cs);
        pending_challenge = none;
        brute_force = clear_kept lib.to_string io.attempts_saved s.brute_force ip;
      },
      elim io.token [
        | none ↦ verify_fail (failed "Token generation failed")
        | some token ↦ verify_ok token io.must_change_password
      ],
    )
  ]

  pub finish :
      LoginIo → ℕ → String → PasskeyServer → Result Denial Accepted → PasskeyServer × VerifyResponse
  unfolding deny commit
  finish io now ip s (err denial) = deny io now ip denial s
  finish io now ip s (ok a) = commit io ip a s

  -- The whole handler, with no other request in between.
  unfoldable pub login_verify_inner :
      LoginIo → ℕ → String → Assertion → PasskeyServer → PasskeyServer × VerifyResponse
  unfolding finish
  login_verify_inner io now ip req s = finish io now ip s (judge now ip req s)

-- `LoginChallengeResponse`, or the error of a locked address.
pub record LoginChallengeResponse : Type 0 where
  pub challenge : String
  pub challenge_id : String
  pub rp_id : String
  pub timeout : ℕ

-- `login_challenge_inner`: the random id and challenge, and the funnel's URL, are arguments.
unfoldable pub login_challenge_inner :
    ℕ
    → String
    → String
    → String
    → Option String
    → Option String
    → PasskeyServer
    → PasskeyServer × Result (ℤ × String) LoginChallengeResponse
login_challenge_inner now ip challenge_id challenge funnel_url credential_id s =
    elim (check s.brute_force.memory now ip) [
      | some e ↦ (s, err e)
      | none ↦
          let rp_id : String = elim funnel_url [ none ↦ "nanokvm" | some url ↦ url ] in
          (
            record s {
              pending_challenge =
                  some (new_login_challenge now challenge_id challenge rp_id credential_id);
            },
            ok (record {
              challenge = challenge;
              challenge_id = challenge_id;
              rp_id = rp_id;
              timeout = 300000;
            }),
          )
    ]
