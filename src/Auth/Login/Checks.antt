-- ===== src/Auth/Login/Checks.antt =====
-- What a login with a password is checked for, and the lockout after wrong ones.
use rustykvm.Prelude.{
  ℕ, ◌+◌, ◌^◌, ◌<◌, String, ◌≡◌, refl, sym, ap, ◌∙◌, inl, inr, true, false, Option, none, some,
  arith, eq_iff, str_eq, ltb, Bool-cases, Option-cases,
}
use rustykvm.Prelude.{◌⊎◌, Bool, both_true, if◌then◌else◌}
use rustykvm.Prelude.Assoc.{lookup, lookup-remove}
use rustykvm.Auth.Password.{decrypt_password}
use rustykvm.Auth.BruteForce.{clear}
use rustykvm.Prelude.Int.{ℤ}
use rustykvm.Auth.BruteForce.{
  SaveIo, Kept, window, check, record_failure, record_failure_kept, clear_kept, is_enabled,
}
use rustykvm.Auth.BruteForce.Lockout.{IsActive, check-record_failure}
use rustykvm.Auth.Login.{
  LoginReq, Account, LoginConfig, LoginLibrary, refused, failure_answer, token_answer, claims_of,
  or_plain, or_false, is_right, try_password, login_handler_inner,
}

module _ (lib : LoginLibrary) where
  login_right :
      (cfg : LoginConfig) (io : SaveIo) (now : ℕ) (ip session_id : String) (req : LoginReq)
      (account : Account) (k : Kept)
      → str_eq cfg.authentication "disable" ≡ false
      → check k.memory now ip ≡ none
      → is_right lib req account ≡ true
      → login_handler_inner lib cfg io now ip session_id req account k ≡ (
        clear_kept lib.to_string io k ip,
        token_answer account (lib.encode (claims_of lib cfg now session_id req account)),
      )
  unfolding login_handler_inner try_password
  login_right cfg io now ip session_id req account k on free right = rw (on, free) (rw right refl)

  pub login_wrong :
      (cfg : LoginConfig) (io : SaveIo) (now : ℕ) (ip session_id : String) (req : LoginReq)
      (account : Account) (k : Kept)
      → str_eq cfg.authentication "disable" ≡ false
      → check k.memory now ip ≡ none
      → is_right lib req account ≡ false
      → login_handler_inner lib cfg io now ip session_id req account k ≡ (
        (record_failure_kept lib.to_string io k now ip).0,
        failure_answer (record_failure_kept lib.to_string io k now ip).1,
      )
  unfolding login_handler_inner try_password
  login_wrong cfg io now ip session_id req account k on free wrong = rw (on, free) (rw wrong refl)

  pub login_locked :
      (cfg : LoginConfig) (io : SaveIo) (now : ℕ) (ip session_id : String) (req : LoginReq)
      (account : Account) (k : Kept) {e : ℤ × String}
      → str_eq cfg.authentication "disable" ≡ false
      → check k.memory now ip ≡ some e
      → login_handler_inner lib cfg io now ip session_id req account k ≡ (k, refused e)
  unfolding login_handler_inner
  login_locked cfg io now ip session_id req account k on hit = rw (on, hit) refl

  no_cookie : {token : String} → ¬ (none ≡ some token)
  no_cookie e = cc

  cookie-token_answer :
      (account : Account) (o : Option String) → (token_answer account o).cookie ≡ o
  cookie-token_answer account none = refl
  cookie-token_answer account (some token) = refl

  cookie-failure_answer : (o : Option (ℤ × String)) → (failure_answer o).cookie ≡ none
  cookie-failure_answer none = refl
  cookie-failure_answer (some e) = refl

  -- What a login that sets a cookie passed, in the handler's own terms.
  pub login_passed :
      (cfg : LoginConfig) (io : SaveIo) (now : ℕ) (ip session_id : String) (req : LoginReq)
      (account : Account) (k : Kept) (token : String)
      → str_eq cfg.authentication "disable" ≡ false
      → (login_handler_inner lib cfg io now ip session_id req account k).1.cookie ≡ some token
      → (check k.memory now ip ≡ none)
        × (req.username ≡ account.username)
        × (is_right lib req account ≡ true)
        × (lib.encode (claims_of lib cfg now session_id req account) ≡ some token)
        × ((login_handler_inner lib cfg io now ip session_id req account k).0
            ≡ clear_kept lib.to_string io k ip)
  login_passed cfg io now ip session_id req account k token on e =
      elim (Option-cases (check k.memory now ip)) [
        | inr (x, hit) ↦
            let refusal = login_locked cfg io now ip session_id req account k on hit in
            absurd (no_cookie (sym (ap (λ r. r.1.cookie) refusal) ∙ e))
        | inl free ↦ elim (Bool-cases (is_right lib req account)) [
          | inr wrong ↦
              let failure = login_wrong cfg io now ip session_id req account k on free wrong in
              absurd (
                no_cookie (
                  sym (cookie-failure_answer (record_failure_kept lib.to_string io k now ip).1)
                  ∙ sym (ap (λ r. r.1.cookie) failure)
                  ∙ e))
          | inl right ↦
              let success = login_right cfg io now ip session_id req account k on free right in
              let signed = lib.encode (claims_of lib cfg now session_id req account) in
              (
                free,
                (eq_iff req.username account.username).0 (ground (arith, right)),
                right,
                sym (cookie-token_answer account signed) ∙ sym (ap (λ r. r.1.cookie) success) ∙ e,
                ap (λ r. r.0) success,
              )
        ]
      ]

  -- bcrypt accepts the password as it is sent where it cannot be decrypted, and what it decrypts to where
  -- it can.
  abbrev pub IsAccepted : String → String → Type 0
  IsAccepted password hash =
      ((decrypt_password lib.password password ≡ none) × (lib.verify password hash ≡ some true))
      ⊎ ((plain : String) × (decrypt_password lib.password password ≡ some plain)
          × (lib.verify plain hash ≡ some true))

  or_false-true : (o : Option Bool) → or_false o ≡ true → o ≡ some true
  or_false-true none h = cc
  or_false-true (some b) h = ap some h

  or_plain-IsAccepted :
      (password hash : String) (o : Option String)
      → decrypt_password lib.password password ≡ o
      → lib.verify (or_plain o password) hash ≡ some true
      → IsAccepted password hash
  or_plain-IsAccepted password hash none e h = inl (e, h)
  or_plain-IsAccepted password hash (some plain) e h = inr (plain, e, h)

  right-IsAccepted :
      (req : LoginReq) (account : Account)
      → is_right lib req account ≡ true
      → IsAccepted req.password account.password
  right-IsAccepted req account h =
      let verified = or_false (
        lib.verify (or_plain (decrypt_password lib.password req.password) req.password)
          account.password) in
      let (accepted, named) = both_true verified (str_eq req.username account.username) h in
      or_plain-IsAccepted req.password account.password (decrypt_password lib.password req.password)
        refl (or_false-true _ accepted)

  cleared_record :
      (io : SaveIo) (k : Kept) (ip : String)
      → lookup ip (clear_kept lib.to_string io k ip).memory.attempts
        ≡ (if is_enabled k.memory.security then none else lookup ip k.memory.attempts)
  unfolding clear_kept clear
  cleared_record io k ip = elim (Bool-cases (is_enabled k.memory.security)) [
    | inl on ↦ rw on (lookup-remove ip ip k.memory.attempts ∙ rw ((eq_iff ip ip).1 refl) refl)
    | inr off ↦ rw off refl
  ]

  -- Where authentication is on, a login that sets a session cookie was made from an address that is not locked,
  -- with the name of the account and a password that bcrypt accepts, decrypted where
  -- that is possible and else as it was sent. The token signs that name, the end of the session's duration
  -- and the account's duty to change the password. Where the protection is on, the address has no failures
  -- on record after it.
  pub password_login_sound :
      (cfg : LoginConfig) (io : SaveIo) (now : ℕ) (ip session_id : String) (req : LoginReq)
      (account : Account) (k : Kept) (token : String)
      → str_eq cfg.authentication "disable" ≡ false
      → (login_handler_inner lib cfg io now ip session_id req account k).1.cookie ≡ some token
      → (check k.memory now ip ≡ none)
        × (req.username ≡ account.username)
        × IsAccepted req.password account.password
        × (lib.encode (record {
          username = account.username;
          exp = now + cfg.refresh_token_duration;
          requires_password_change = account.must_change_password;
          session_id = session_id;
        })
            ≡ some token)
        × (lookup ip
              (login_handler_inner lib cfg io now ip session_id req account k).0.memory.attempts
            ≡ (if is_enabled k.memory.security then none else lookup ip k.memory.attempts))
  password_login_sound cfg io now ip session_id req account k token on e =
      let (free, named, right, signed, cleared) =
        login_passed cfg io now ip session_id req account k token on e in
      (
        free,
        named,
        right-IsAccepted req account right,
        rw (sym named) signed,
        rw cleared (cleared_record io k ip),
      )

  memory-record_failure_kept :
      (io : SaveIo) (now : ℕ) (ip : String) (k : Kept)
      → is_enabled k.memory.security ≡ true
      → ((record_failure_kept lib.to_string io k now ip).0.memory
          ≡ (record_failure k.memory now ip).0)
        × ((record_failure_kept lib.to_string io k now ip).1 ≡ (record_failure k.memory now ip).1)
  unfolding record_failure_kept
  memory-record_failure_kept io now ip k on = (rw on refl, rw on refl)

  -- Where authentication and the protection are on, with settings that are i32 and a window that ends
  -- within u64, a wrong password that completes the run of failures locks the address: every login from it before the window has passed is refused with
  -- the lockout's error and changes nothing, even with the right password.
  pub locked_after_wrong :
      (cfg : LoginConfig) (io io' : SaveIo) (now t : ℕ) (ip session_id session_id' : String)
      (req req' : LoginReq) (account : Account) (k : Kept) (e : ℤ × String)
      → IsActive k.memory.security
      → str_eq cfg.authentication "disable" ≡ false
      → check k.memory now ip ≡ none
      → is_right lib req account ≡ false
      → (record_failure k.memory now ip).1 ≡ some e
      → now + window k.memory.security < 2 ^ 64
      → t < now + window k.memory.security
      → let (after, answer) = login_handler_inner lib cfg io now ip session_id req account k in
        (answer ≡ refused e)
        × (login_handler_inner lib cfg io' t ip session_id' req' account after ≡ (after, refused e))
  locked_after_wrong cfg io io' now t ip session_id session_id' req req' account k e active on free
        wrong full fits early =
      let failure = login_wrong cfg io now ip session_id req account k on free wrong in
      let (memory, answer) = memory-record_failure_kept io now ip k active.enabled in
      let kept = (record_failure_kept lib.to_string io k now ip).0 in
      let lockout = check-record_failure k.memory ip active now t fits in
      let before : ltb t (now + window k.memory.security) ≡ true = ground (arith, early) in
      let hit : check kept.memory t ip ≡ some e = rw memory (lockout ∙ rw (before, full) refl) in
      rw failure
        (rw (answer, full) refl, login_locked cfg io' t ip session_id' req' account kept on hit)
