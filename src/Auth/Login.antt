-- ===== src/Auth/Login.antt =====
-- server/src/auth.rs: `login_handler_inner`, the login with a password. bcrypt's
-- comparison and the signing of the token are parameters; the waits and the audit log are left
-- out, and of the session cookie only its token is kept.
pub mod Checks
mod Tests
use rustykvm.Prelude.{
  ℕ, zero, suc, ◌+◌, ◌-◌, ◌*◌, ◌/◌, ◌%◌, ◌^◌, ◌≤◌, ◌<◌, min, String, ◌≡◌, refl, sym, ap, ◌∙◌, ◌≢◌,
  ◌↔◌, ◌⊎◌, inl, inr, Bool, true, false, not, ◌&&◌, ◌||◌, Option, none, some, List, [], ◌∷◌, ◌++◌,
  map, arith, eq_iff, str_eq, ltb, leb, ◌==◌, if◌then◌else◌, ltb→lt, lt→ltb, ltb_of_le, leb→le,
  ==_iff, tests, Bool-cases, Option-cases, is_some_and, length, get_elem?, get_elem?-of_lt, get_or,
  take, drop, replicate, any, all, retain, All, sum, sum-append, list_eq, list_eq→eq, list_eq_refl,
  length-append, length-take, length-drop, take-append-drop, length-retain-le,
}
use rustykvm.Prelude.Assoc.{Assoc, lookup}
use rustykvm.Prelude.Int.{ℤ}
use rustykvm.Auth.Password.{PasswordLibrary, decrypt_password}
use rustykvm.Api.{ApiResponse, api_ok, api_err}
use rustykvm.Api.ErrorCodes
use rustykvm.Auth.BruteForce.{
  Security, LoginAttempt, BruteForce, SaveIo, Kept, window, check, record_failure,
  record_failure_kept, clear_kept, is_enabled,
}

pub record Claims : Type 0 where
  pub username : String
  pub exp : ℕ
  pub requires_password_change : Bool
  pub session_id : String

pub record LoginReq : Type 0 where
  pub username : String
  pub password : String

-- `password_expiry_days` is never set.
pub record LoginRsp : Type 0 where
  pub token : String
  pub requires_password_change : Bool

-- The three fields of the account file that the login reads.
pub record Account : Type 0 where
  pub username : String
  pub password : String
  pub must_change_password : Bool

pub record LoginConfig : Type 0 where
  pub authentication : String
  pub refresh_token_duration : ℕ

-- The functions of the libraries, the signing key with them.
pub record LoginLibrary : Type 0 where
  pub password : PasswordLibrary
  pub verify : String → String → Option Bool
  pub encode : Claims → Option String
  pub to_string : Assoc LoginAttempt → Option String

abbrev pub or_plain : Option String → String → String
or_plain none password = password
or_plain (some plain) password = plain

abbrev pub or_false : Option Bool → Bool
or_false none = false
or_false (some b) = b

-- The response, and the token of the session cookie that is set.
pub record LoginAnswer : Type 0 where
  pub response : ApiResponse LoginRsp
  pub cookie : Option String

abbrev pub refused : ℤ × String → LoginAnswer
refused e = record { response = api_err e.0 e.1; cookie = none }

abbrev pub failure_answer : Option (ℤ × String) → LoginAnswer
failure_answer none = refused (ErrorCodes.auth, "Invalid username or password")
failure_answer (some e) = refused e

abbrev pub token_answer : Account → Option String → LoginAnswer
token_answer account none = refused (ErrorCodes.generic, "Token generation failed")
token_answer account (some token) = record {
  response =
      api_ok (record { token = token; requires_password_change = account.must_change_password });
  cookie = some token;
}

module _ (lib : LoginLibrary) where
  abbrev pub claims_of : LoginConfig → ℕ → String → LoginReq → Account → Claims
  claims_of cfg now session_id req account = record {
    username = req.username;
    exp = now + cfg.refresh_token_duration;
    requires_password_change = account.must_change_password;
    session_id = session_id;
  }

  abbrev pub is_right : LoginReq → Account → Bool
  is_right req account =
      or_false (
        lib.verify (or_plain (decrypt_password lib.password req.password) req.password)
          account.password)
      && str_eq req.username account.username

  -- From the comparison on, for an address that is not locked.
  unfoldable pub try_password :
      LoginConfig → SaveIo → ℕ → String → String → LoginReq → Account → Kept → Kept × LoginAnswer
  try_password cfg io now ip session_id req account k =
      if not (is_right req account)
      then (let (k', lockout) = record_failure_kept lib.to_string io k now ip in
          (k', failure_answer lockout))
      else (
        clear_kept lib.to_string io k ip,
        token_answer account (lib.encode (claims_of cfg now session_id req account)),
      )

  unfoldable pub login_handler_inner :
      LoginConfig → SaveIo → ℕ → String → String → LoginReq → Account → Kept → Kept × LoginAnswer
  login_handler_inner cfg io now ip session_id req account k =
      if str_eq cfg.authentication "disable"
      then (
        k,
        record {
          response = api_ok (record { token = "disabled"; requires_password_change = false });
          cookie = none;
        },
      )
      else (elim (check k.memory now ip) [
        | some e ↦ (k, refused e)
        | none ↦ try_password cfg io now ip session_id req account k
      ])
