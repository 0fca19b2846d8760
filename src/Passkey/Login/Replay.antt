-- ===== src/Passkey/Login/Replay.antt =====
-- What one login leaves for the next request.
use rustykvm.Prelude.{
  ℕ, ◌≤◌, ◌<◌, String, ◌≡◌, refl, ap, ◌⊎◌, inl, inr, Bool, false, Option, none, some, List, [], ◌∷◌,
  arith, eq_iff, str_eq, if◌then◌else◌, Bool-cases, Option-cases,
}
use rustykvm.Prelude.{◌∙◌, All, true}
use rustykvm.Prelude.Result.{Result, ok, err, is_complete, written_file-is_complete}
use rustykvm.Prelude.Int.{ℤ}
use rustykvm.Auth.BruteForce.{check}
use rustykvm.Passkey.Challenge.{PasskeyCredential, PasskeyServer, find, set_counter}
use rustykvm.Passkey.Protocol.{
  Library, LoginIo, Assertion, VerifyResponse, verify_ok, verify_fail, failed, locked, Denial,
  counted_denial, stored, Accepted,
}
use rustykvm.Passkey.Login.{check_request, finish, judge, deny, commit, login_verify_inner}
use rustykvm.Passkey.Login.Checks.{IsLogin, judge-ok, token_is_earned}

module _ (lib : Library) where
  -- The answers of a login without a live challenge, and of one from a locked address.
  abbrev pub IsDenied : VerifyResponse → Type 0
  IsDenied answer =
      (answer ≡ verify_fail (failed "Invalid or expired challenge"))
      ⊎ ((e : ℤ × String) × (answer ≡ verify_fail (locked e)))

  no_challenge-refused :
      (io : LoginIo) (now : ℕ) (ip : String) (req : Assertion) (s : PasskeyServer)
      → s.pending_challenge ≡ none
      → IsDenied (login_verify_inner lib io now ip req s).1
        × ((login_verify_inner lib io now ip req s).0.pending_challenge ≡ none)
  unfolding login_verify_inner finish judge check_request deny
  no_challenge-refused io now ip req s gone =
      elim (Option-cases (check s.brute_force.memory now ip)) [
        | inl free ↦
            let judged : judge lib now ip req s
                ≡ err (counted_denial "Invalid or expired challenge") =
              rw (free, gone, judge) refl in
            (
              inl (ap (λ r. (finish lib io now ip s r).1) judged),
              ap (λ r. (finish lib io now ip s r).0.pending_challenge) judged ∙ gone,
            )
        | inr (x, hit) ↦
            let judged : judge lib now ip req s
                ≡ err (record { counted = false; refusal = locked x }) =
              rw (hit, judge) refl in
            (
              inr (x, ap (λ r. (finish lib io now ip s r).1) judged),
              ap (λ r. (finish lib io now ip s r).0.pending_challenge) judged ∙ gone,
            )
      ]

  -- A call of the handler, with what the world answers to it.
  pub record LoginCall : Type 0 where
    pub io : LoginIo
    pub now : ℕ
    pub ip : String
    pub req : Assertion

  abbrev pub call : LoginCall → PasskeyServer → PasskeyServer × VerifyResponse
  call c s = login_verify_inner lib c.io c.now c.ip c.req s

  -- The answers to a run of logins, one after the other.
  abbrev pub answers : List LoginCall → PasskeyServer → List VerifyResponse
  answers [] s = []
  answers (c ∷ calls) s = (call c s).1 ∷ answers calls (call c s).0

  without_challenge :
      (calls : List LoginCall) (s : PasskeyServer)
      → s.pending_challenge ≡ none
      → All IsDenied (answers calls s)
  without_challenge [] s gone = tt
  without_challenge (c ∷ calls) s gone =
      let (refused, still) = no_challenge-refused c.io c.now c.ip c.req s gone in
      (refused, without_challenge calls (call c s).0 still)

  -- After a login that is answered with a token, every login of a run in which no challenge is asked for is
  -- refused, for want of a challenge or because its address is locked: with the same assertion or others, at
  -- any times and from any addresses.
  pub replay_refused :
      (io : LoginIo) (now : ℕ) (ip : String) (req : Assertion) (s : PasskeyServer) (token : String)
      (change : Bool) (calls : List LoginCall)
      → (login_verify_inner lib io now ip req s).1 ≡ verify_ok token change
      → All IsDenied (answers calls (login_verify_inner lib io now ip req s).0)
  replay_refused io now ip req s token change calls e =
      without_challenge calls (login_verify_inner lib io now ip req s).0
        (token_is_earned lib io now ip req s token change e).2

  abbrev with_counter : ℕ → Option PasskeyCredential → Option PasskeyCredential
  with_counter n none = none
  with_counter n (some c) = some (record c { counter = n })

  find-set_counter :
      (id j : String) (n : ℕ) (cs : List PasskeyCredential)
      → find j (set_counter id n cs)
        ≡ (if str_eq id j then with_counter n (find j cs) else find j cs)
  find-set_counter id j n [] = ground arith
  find-set_counter id j n (x ∷ cs) =
      ground (arith, eq_iff id j, eq_iff x.id id, eq_iff x.id j, find-set_counter id j n cs)

  commit-keeps :
      (io : LoginIo) (ip : String) (a : Accepted) (s : PasskeyServer) (j : String)
      {c cred : PasskeyCredential}
      → is_complete io.passkeys_saved ≡ true
      → stored a.id s.storage ≡ some cred
      → cred.counter < a.counter
      → stored j s.storage ≡ some c
      → (c' : PasskeyCredential) × (stored j (commit lib io ip a s).0.storage ≡ some c')
        × (c'.public_key ≡ c.public_key)
        × (c.counter ≤ c'.counter)
  unfolding commit
  commit-keeps io ip a s j {c} {cred} saved found grown e = elim (Option-cases s.storage) [
    | inl missing ↦ absurd (ground arith)
    | inr (cs, loaded) ↦
        let update = find-set_counter a.id j a.counter cs in
        let here : find j cs ≡ some c = rw loaded at e in
        let there : find a.id cs ≡ some cred = rw loaded at found in
        let file =
          written_file-is_complete io.passkeys_saved (set_counter a.id a.counter cs) saved in
        elim (Bool-cases (str_eq a.id j)) [
          | inr other ↦ (c, rw (loaded, file, update, other) here, refl, omega arith)
          | inl same ↦
              let names : a.id ≡ j = (eq_iff a.id j).0 same in
              let one : cred ≡ c = ground (arith, names, here, there) in
              (
                record c { counter = a.counter },
                rw (loaded, file, update, same, here) refl,
                refl,
                ground (arith, one, grown),
              )
        ]
  ]

  finish-keeps :
      (io : LoginIo) (now : ℕ) (ip : String) (req : Assertion) (s : PasskeyServer)
      (r : Result Denial Accepted) (j : String) {c : PasskeyCredential}
      → is_complete io.passkeys_saved ≡ true
      → ((a : Accepted) → r ≡ ok a → IsLogin lib now ip req s a)
      → stored j s.storage ≡ some c
      → (c' : PasskeyCredential) × (stored j (finish lib io now ip s r).0.storage ≡ some c')
        × (c'.public_key ≡ c.public_key)
        × (c.counter ≤ c'.counter)
  unfolding finish deny
  finish-keeps io now ip req s (err denial) j {c} saved sound e =
      (c, ground arith, refl, omega arith)
  finish-keeps io now ip req s (ok a) j {c} saved sound e =
      let login = sound a refl in
      commit-keeps io ip a s j {cred = login.credential} saved
        (rw login.assertion.same_id login.found) login.assertion.grown e

  -- No login, whatever its answer, removes a stored credential, changes its key or lowers its counter, unless
  -- it breaks off the write of the credentials file.
  pub login_keeps_credentials :
      (io : LoginIo) (now : ℕ) (ip : String) (req : Assertion) (s : PasskeyServer) (j : String)
      (c : PasskeyCredential)
      → is_complete io.passkeys_saved ≡ true
      → stored j s.storage ≡ some c
      → (c' : PasskeyCredential) × (stored j (login_verify_inner lib io now ip req s).0.storage
          ≡ some c')
        × (c'.public_key ≡ c.public_key)
        × (c.counter ≤ c'.counter)
  unfolding login_verify_inner
  login_keeps_credentials io now ip req s j c saved e =
      finish-keeps io now ip req s (judge lib now ip req s) j saved
        (λ a judged. judge-ok lib now ip req s judged) e

  commit-token :
      (io : LoginIo) (ip : String) (a : Accepted) (s : PasskeyServer) {cs : List PasskeyCredential}
      {token : String}
      → s.storage ≡ some cs
      → io.token ≡ some token
      → (commit lib io ip a s).1 ≡ verify_ok token io.must_change_password
  unfolding commit
  commit-token io ip a s loaded signed = rw (loaded, signed) refl

  -- Two requests that overlap, so that both are checked before either is answered, can use one
  -- challenge and one counter twice: if the checks accept the one and the other on the same state, tokens
  -- can be signed, and the credentials file still loads after the first one's write, both are answered
  -- with a token.
  pub overlapping_logins :
      (io io' : LoginIo) (now now' : ℕ) (ip ip' : String) (req req' : Assertion) (s : PasskeyServer)
      (a a' : Accepted) (token token' : String) (left : List PasskeyCredential)
      → judge lib now ip req s ≡ ok a
      → judge lib now' ip' req' s ≡ ok a'
      → io.token ≡ some token
      → io'.token ≡ some token'
      → (finish lib io now ip s (judge lib now ip req s)).0.storage ≡ some left
      → let first = finish lib io now ip s (judge lib now ip req s) in
        let second = finish lib io' now' ip' first.0 (judge lib now' ip' req' s) in
        (first.1 ≡ verify_ok token io.must_change_password)
        × (second.1 ≡ verify_ok token' io'.must_change_password)
  unfolding finish commit
  overlapping_logins io io' now now' ip ip' req req' s a a' token token' left e e' signed signed'
        loads =
      elim (Option-cases s.storage) [
        | inl missing ↦
            let found = (judge-ok lib now ip req s e).found in absurd (ground (arith, found))
        | inr (cs, loaded) ↦ (
          rw e (commit-token io ip a s loaded signed),
          rw e' (
              commit-token io' ip' a' (finish lib io now ip s (judge lib now ip req s)).0 loads
                signed'),
        )
      ]
