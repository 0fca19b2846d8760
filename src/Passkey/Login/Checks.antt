-- ===== src/Passkey/Login/Checks.antt =====
-- What a login that is answered with a token has been checked for.
use rustykvm.Prelude.{
  ℕ, ◌<◌, String, ◌≡◌, refl, ap, inl, inr, Bool, true, false, Option, none, some, List, ◌++◌, arith,
  eq_iff, Option-cases,
}
use rustykvm.Prelude.Result.{Result, ok, err, is_complete, written_file-is_complete}
use rustykvm.Auth.BruteForce.{check}
use rustykvm.Passkey.Bytes.{bit}
use rustykvm.Passkey.AuthData.{AuthenticatorData, parse}
use rustykvm.Passkey.CoseKey.{verify_signature}
use rustykvm.Passkey.Challenge.{
  PendingChallenge, PasskeyCredential, PasskeyServer, live, set_counter,
}
use rustykvm.Passkey.Protocol.{
  ClientFields, Library, LoginIo, Assertion, verify_ok, Denial, or_default, expects, stored,
  client_text, expected_origin, Accepted,
}
use rustykvm.Passkey.Login.{
  decoded, client_json, hash_of, check_signature, check_auth_data, check_credential, check_request,
  finish, judge, deny, commit, login_verify_inner,
}

module _ (lib : Library) where
  -- The client data is the challenge's, and `hash` its digest.
  pub record IsClientData (c : PendingChallenge) (req : Assertion) (hash : List ℕ) : Type 0 where
    pub fields : ClientFields
    pub reads : lib.client_fields (client_json lib req.client_data_json) ≡ some fields
    pub challenge : or_default fields.challenge ≡ c.challenge
    pub origin : or_default fields.origin ≡ expected_origin c
    pub digest : hash ≡ lib.sha256 (client_text fields)

  -- The assertion is one of the credential's for the challenge, with a counter above the stored one.
  pub record IsAssertion (c : PendingChallenge) (req : Assertion) (cred : PasskeyCredential)
      (a : Accepted) : Type 0 where
    pub auth_data : AuthenticatorData
    pub hash : List ℕ
    pub parsed : parse (decoded lib req.authenticator_data) ≡ some auth_data
    pub grown : cred.counter < a.counter
    pub present : bit auth_data.flags 0 ≡ true
    pub client : IsClientData c req hash
    pub signed :
        verify_signature lib.verify cred.public_key
          (decoded lib req.authenticator_data ++ hash)
          (decoded lib req.signature)
        ≡ true
    pub same_id : a.id ≡ or_default req.id
    pub same_counter : a.counter ≡ auth_data.counter

  -- The address is not locked, the challenge is pending, live and a login's, and the assertion is one
  -- of the stored credential that it names.
  pub record IsLogin (now : ℕ) (ip : String) (req : Assertion) (s : PasskeyServer) (a : Accepted)
      : Type 0 where
    pub challenge : PendingChallenge
    pub credential : PasskeyCredential
    pub unlocked : check s.brute_force.memory now ip ≡ none
    pub is_live : live false now s.pending_challenge ≡ some challenge
    pub expected : expects challenge.credential_id (or_default req.id) ≡ true
    pub found : stored (or_default req.id) s.storage ≡ some credential
    pub assertion : IsAssertion challenge req credential a

  hash_of-ok :
      (c : PendingChallenge) (req : Assertion) (o : Option ClientFields) {hash : List ℕ}
      → lib.client_fields (client_json lib req.client_data_json) ≡ o
      → hash_of lib c o ≡ ok hash
      → IsClientData c req hash
  unfolding hash_of
  hash_of-ok c req none reads e = cc
  hash_of-ok c req (some f) {hash} reads e = record {
    fields = f;
    reads = reads;
    challenge = ground (arith, eq_iff (or_default f.challenge) c.challenge);
    origin = ground (arith, eq_iff (or_default f.origin) (expected_origin c));
    digest = ground arith;
  }

  check_signature-ok :
      (req : Assertion) (cred : PasskeyCredential) (ad : AuthenticatorData)
      (r : Result Denial (List ℕ)) {a : Accepted}
      → check_signature lib req cred ad r ≡ ok a
      → (hash : List ℕ) × (r ≡ ok hash)
        × (verify_signature lib.verify cred.public_key
              (decoded lib req.authenticator_data ++ hash)
              (decoded lib req.signature)
            ≡ true)
        × (a ≡ record { id = or_default req.id; counter = ad.counter })
  unfolding check_signature
  check_signature-ok req cred ad (err d) e = cc
  check_signature-ok req cred ad (ok hash) e = (hash, refl, ground arith, ground arith)

  check_auth_data-ok :
      (c : PendingChallenge) (req : Assertion) (cred : PasskeyCredential)
      (o : Option AuthenticatorData) {a : Accepted}
      → parse (decoded lib req.authenticator_data) ≡ o
      → check_auth_data lib c req cred o ≡ ok a
      → IsAssertion c req cred a
  unfolding check_auth_data
  check_auth_data-ok c req cred none parsed e = cc
  check_auth_data-ok c req cred (some ad) {a} parsed e =
      let client = lib.client_fields (client_json lib req.client_data_json) in
      let passed : check_signature lib req cred ad (hash_of lib c client) ≡ ok a = ground arith in
      let (hash, hashed, signed, same) =
        check_signature-ok req cred ad (hash_of lib c client) passed in
      record {
        auth_data = ad;
        hash = hash;
        parsed = parsed;
        grown = ground arith;
        present = ground arith;
        client = hash_of-ok c req client refl hashed;
        signed = signed;
        same_id = ap (λ (x : Accepted). x.id) same;
        same_counter = ap (λ (x : Accepted). x.counter) same;
      }

  check_request-ok :
      (req : Assertion) (s : PasskeyServer) (c : PendingChallenge) {a : Accepted}
      → check_request lib req s (some c) ≡ ok a
      → (expects c.credential_id (or_default req.id) ≡ true)
        × (check_credential lib c req (stored (or_default req.id) s.storage) ≡ ok a)
  unfolding check_request
  check_request-ok req s c e = ground arith

  check_credential-ok :
      (c : PendingChallenge) (req : Assertion) (o : Option PasskeyCredential) {a : Accepted}
      → check_credential lib c req o ≡ ok a
      → (cred : PasskeyCredential) × (o ≡ some cred) × IsAssertion c req cred a
  unfolding check_credential
  check_credential-ok c req none e = cc
  check_credential-ok c req (some cred) e = (
    cred,
    refl,
    check_auth_data-ok c req cred (parse (decoded lib req.authenticator_data)) refl e,
  )

  live_request-ok :
      (now : ℕ) (ip : String) (req : Assertion) (s : PasskeyServer) (o : Option PendingChallenge)
      {a : Accepted}
      → check s.brute_force.memory now ip ≡ none
      → live false now s.pending_challenge ≡ o
      → check_request lib req s o ≡ ok a
      → IsLogin now ip req s a
  unfolding check_request
  live_request-ok now ip req s none free is_live e = cc
  live_request-ok now ip req s (some c) free is_live e =
      let (expected, rest) = check_request-ok req s c e in
      let (cred, found, assertion) =
        check_credential-ok c req (stored (or_default req.id) s.storage) rest in
      record {
        challenge = c;
        credential = cred;
        unlocked = free;
        is_live = is_live;
        expected = expected;
        found = found;
        assertion = assertion;
      }

  pub judge-ok :
      (now : ℕ) (ip : String) (req : Assertion) (s : PasskeyServer) {a : Accepted}
      → judge lib now ip req s ≡ ok a
      → IsLogin now ip req s a
  unfolding judge
  judge-ok now ip req s e = elim (Option-cases (check s.brute_force.memory now ip)) [
    | inl free ↦
        live_request-ok now ip req s (live false now s.pending_challenge) free refl
          (rw (free, judge) at e)
    | inr (x, hit) ↦ absurd (ground arith)
  ]

  finish-ok :
      (io : LoginIo) (now : ℕ) (ip : String) (s : PasskeyServer) (r : Result Denial Accepted)
      {token : String} {change : Bool}
      → (finish lib io now ip s r).1 ≡ verify_ok token change
      → (a : Accepted) × (r ≡ ok a)
        × ((finish lib io now ip s r).0.pending_challenge ≡ none)
        × (is_complete io.passkeys_saved ≡ true
            → (cs : List PasskeyCredential) × (s.storage ≡ some cs)
              × ((finish lib io now ip s r).0.storage ≡ some (set_counter a.id a.counter cs)))
  unfolding finish deny commit
  finish-ok io now ip s (err denial) e = cc
  finish-ok io now ip s (ok a) e = elim (Option-cases s.storage) [
    | inl missing ↦ absurd (ground arith)
    | inr (cs, loaded) ↦ (
      a,
      refl,
      rw loaded refl,
      λ w. (
        cs,
        loaded,
        rw loaded (written_file-is_complete io.passkeys_saved (set_counter a.id a.counter cs) w),
      ),
    )
  ]

  -- A login that is answered with a token was made by an address that is not locked, for the pending
  -- login challenge before it expired, with the challenge, its origin and a signature of the stored
  -- credential that is named, and a counter above the stored one. It uses the challenge up, and if the
  -- credentials file can be written, the new counter is stored.
  pub token_is_earned :
      (io : LoginIo) (now : ℕ) (ip : String) (req : Assertion) (s : PasskeyServer) (token : String)
      (change : Bool)
      → (login_verify_inner lib io now ip req s).1 ≡ verify_ok token change
      → let after = (login_verify_inner lib io now ip req s).0 in
        (a : Accepted) × IsLogin now ip req s a
        × (after.pending_challenge ≡ none)
        × (is_complete io.passkeys_saved ≡ true
            → (cs : List PasskeyCredential) × (s.storage ≡ some cs)
              × (after.storage ≡ some (set_counter a.id a.counter cs)))
  unfolding login_verify_inner
  token_is_earned io now ip req s token change e =
      let (a, judged, gone, kept) = finish-ok io now ip s (judge lib now ip req s) e in
      (a, judge-ok now ip req s judged, gone, kept)
