-- ===== src/Passkey/Login/Tests.antt =====
-- Runs of `login_verify_inner`, and the theorems at concrete inputs.
use rustykvm.Prelude.{
  ◌≤◌, ◌≡◌, refl, true, false, none, some, List, [], ◌∷◌, ◌++◌, str_eq, if◌then◌else◌, replicate,
}
use rustykvm.Prelude.Result.{ok, complete, broken}
use rustykvm.Prelude.{All}
use rustykvm.Prelude.Int.{pos}
use rustykvm.Auth.BruteForce.{check}
use rustykvm.Passkey.CoseKey.{verify_signature}
use rustykvm.Passkey.AuthData.{parse}
use rustykvm.Passkey.Challenge.{PasskeyCredential, PasskeyServer, new_login_challenge, set_counter}
use rustykvm.Passkey.Protocol.{
  Library, LoginIo, Assertion, verify_ok, verify_fail, failed, stored, Accepted,
}
use rustykvm.Passkey.Login.{finish, judge, login_verify_inner}
use rustykvm.Passkey.Login.Checks.{IsLogin, token_is_earned}
use rustykvm.Passkey.Login.Replay.{
  LoginCall, IsDenied, answers, replay_refused, login_keeps_credentials, overlapping_logins,
}

abbrev lib : Library
lib = record {
  decode = λ s.
      if str_eq s "data" then some (replicate 32 0 ++ (1 ∷ 0 ∷ 0 ∷ 0 ∷ 7 ∷ [])) else some (1 ∷ []);
  from_utf8 = λ _. some "json";
  client_fields = λ _. some (record {
    challenge = some "c1";
    origin = some "https://kvm.ts.net";
    type_ = some "webauthn.get";
    cross_origin = none;
  });
  sha256 = λ _. [];
  verify = λ _ _ _ _. true;
  to_string = λ _. none;
}

abbrev io : LoginIo
io = record {
  attempts_saved = record { written = true; renamed = true };
  passkeys_saved = complete;
  must_change_password = false;
  token = some "token";
}

abbrev credential : PasskeyCredential
credential = record {
  id = "key";
  public_key = record { kty = 2; alg = pos 0; n = replicate 65 4; e = []; crv = some 4 };
  counter = 6;
  device_name = none;
  rp_id = "kvm.ts.net";
}

abbrev server : PasskeyServer
server = record {
  brute_force = record {
    memory = record {
      attempts = [];
      security = record { login_lockout_duration = pos 300; login_max_failures = pos 5 };
    };
    file = none;
  };
  pending_challenge = some (new_login_challenge 100 "id1" "c1" "kvm.ts.net" none);
  pending_recovery_codes = none;
  storage = some (credential ∷ []);
}

abbrev request : Assertion
request = record {
  id = some "key";
  client_data_json = some "client";
  authenticator_data = some "data";
  signature = some "signature";
}

-- The answer, with the challenge and the counter after it.
logs_in :
    let (after, answer) = login_verify_inner lib io 150 "10.0.0.7" request server in
    (answer ≡ verify_ok "token" false)
    × (after.pending_challenge ≡ none)
    × (after.storage ≡ some (record credential { counter = 7 } ∷ []))
unfolding login_verify_inner judge check parse verify_signature
logs_in = (refl, refl, refl)

too_late :
    (login_verify_inner lib io 400 "10.0.0.7" request server).1
    ≡ verify_fail (failed "Invalid or expired challenge")
unfolding login_verify_inner judge check
too_late = refl

token_is_earned_example :
    let after = (login_verify_inner lib io 150 "10.0.0.7" request server).0 in
    (a : Accepted) × IsLogin lib 150 "10.0.0.7" request server a
    × (after.pending_challenge ≡ none)
    × (true ≡ true
        → (cs : List PasskeyCredential) × (server.storage ≡ some cs)
          × (after.storage ≡ some (set_counter a.id a.counter cs)))
token_is_earned_example =
    token_is_earned lib io 150 "10.0.0.7" request server "token" false logs_in.0

abbrev replays : List (LoginCall lib)
replays =
    record { io = io; now = 151; ip = "10.0.0.7"; req = request }
    ∷ record { io = io; now = 152; ip = "10.0.0.8"; req = request }
    ∷ []

replay_refused_example :
    All
      (IsDenied lib)
      (answers lib replays (login_verify_inner lib io 150 "10.0.0.7" request server).0)
replay_refused_example =
    replay_refused lib io 150 "10.0.0.7" request server "token" false replays logs_in.0

login_keeps_credentials_example :
    (c' : PasskeyCredential) × (stored "key"
        (login_verify_inner lib io 150 "10.0.0.7" request server).0.storage
      ≡ some c')
    × (c'.public_key ≡ credential.public_key)
    × (6 ≤ c'.counter)
login_keeps_credentials_example =
    login_keeps_credentials lib io 150 "10.0.0.7" request server "key" credential refl refl

abbrev accepted : Accepted
accepted = record { id = "key"; counter = 7 }

judged : judge lib 150 "10.0.0.7" request server ≡ ok accepted
unfolding judge check parse verify_signature
judged = refl

still_loads :
    (login_verify_inner lib io 150 "10.0.0.7" request server).0.storage
    ≡ some (set_counter "key" 7 (credential ∷ []))
unfolding login_verify_inner judge check parse verify_signature
still_loads = refl

overlapping_logins_example :
    let first = finish lib io 150 "10.0.0.7" server (judge lib 150 "10.0.0.7" request server) in
    let second = finish lib io 150 "10.0.0.7" first.0 (judge lib 150 "10.0.0.7" request server) in
    (first.1 ≡ verify_ok "token" false) × (second.1 ≡ verify_ok "token" false)
unfolding finish login_verify_inner
overlapping_logins_example =
    overlapping_logins lib io io 150 150 "10.0.0.7" "10.0.0.7" request request server accepted
      accepted "token" "token" (set_counter "key" 7 (credential ∷ [])) judged judged refl refl
      still_loads

-- A write that breaks off loses the credential, and the login is answered with a token all the same.
credential_lost :
    let broken_io = record io { passkeys_saved = broken none } in
    let (after, answer) = login_verify_inner lib broken_io 150 "10.0.0.7" request server in
    (answer ≡ verify_ok "token" false) × (stored "key" after.storage ≡ none)
unfolding login_verify_inner judge check parse verify_signature
credential_lost = (refl, refl)
