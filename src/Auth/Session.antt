-- ===== src/Auth/Session.antt =====
-- server/src/auth.rs: the account's file, the signing key, the check of every request, the logout and
-- the change of the password. bcrypt and jsonwebtoken are parameters, as are the outcomes of the
-- files and of `passwd`; the time of the last change, which nothing reads, is left out.
pub mod Tokens
pub mod Changes
mod Tests
use rustykvm.Prelude.{
  ℕ, zero, suc, ◌+◌, ◌-◌, ◌*◌, ◌/◌, ◌%◌, ◌^◌, ◌≤◌, ◌<◌, min, String, ◌≡◌, refl, sym, ap, ◌∙◌, ◌≢◌,
  ◌↔◌, ◌⊎◌, inl, inr, Bool, true, false, not, ◌&&◌, ◌||◌, Option, none, some, List, [], ◌∷◌, ◌++◌,
  map, arith, eq_iff, str_eq, ltb, leb, ◌==◌, if◌then◌else◌, ltb→lt, lt→ltb, ltb_of_le, leb→le,
  ==_iff, tests, Bool-cases, Option-cases, is_some_and, length, get_elem?, get_elem?-of_lt, get_or,
  take, drop, replicate, any, all, retain, All, sum, sum-append, list_eq, list_eq→eq, list_eq_refl,
  length-append, length-take, length-drop, take-append-drop, length-retain-le,
}
use text.Mathlib.Text.{starts_with}
use Prim.Native.String.{slice}
use rustykvm.Prelude.Result.{Result, ok, err}
use rustykvm.Prelude.{str_append, utf8_length}
use rustykvm.Api.{ApiResponse, api_ok, api_ok_empty, api_err}
use rustykvm.Api.ErrorCodes
use rustykvm.Auth.Password.{PasswordLibrary, decrypt_password}
use rustykvm.Auth.Login.{Claims, Account, or_false}

-- `PWD_FILE`: absent, not read as an account, or an account.
pub data AccountFile : Type 0 where
  absent : AccountFile
  unreadable : AccountFile
  holds : Account → AccountFile

pub record SessionLibrary : Type 0 where
  pub password : PasswordLibrary
  pub hash : String → Option String
  pub verify : String → String → Option Bool
  pub encode : String → Claims → Option String
  pub decode : String → ℕ → String → Option Claims

-- The key in memory, the key of the configuration file, and the account.
pub record Sessions : Type 0 where
  pub jwt_secret : String
  pub disk_secret : String
  pub account : AccountFile

abbrev pub or_hash : Option String → String
or_hash none = "$2b$12$LQv3c1yqBWVHxkd0LHAkCOYz6TtxMQJqhN8/X4.nY.yx7xLw0t7i"
or_hash (some h) = h

-- The three fields of the account that are read.
unfoldable pub get_account : SessionLibrary → AccountFile → Account
get_account lib (holds a) = a
get_account lib absent = record {
  username = "admin";
  password = or_hash (lib.hash "admin");
  must_change_password = true;
}
get_account lib unreadable = record {
  username = "admin";
  password = or_hash (lib.hash "admin");
  must_change_password = true;
}

-- `generate_token`
abbrev pub or_failed : Option String → Result {0, 0} String String
or_failed none = err "Token generation failed"
or_failed (some token) = ok token

unfoldable pub generate_token :
    SessionLibrary → ℕ → ℕ → String → Sessions → String → Bool → Result {0, 0} String String
generate_token lib duration now session_id s username requires_password_change = or_failed (
    lib.encode s.jwt_secret (record {
      username = username;
      exp = now + duration;
      requires_password_change = requires_password_change;
      session_id = session_id;
    }))

-- The parts of a request that the check reads.
pub record Request : Type 0 where
  pub cookie : Option String
  pub authorization : Option String
  pub path : String

pub data Checked : Type 0 where
  next : Checked
  forbidden : Checked
  unauthorized : Checked

unfoldable pub allows_during_password_change : String → Bool
allows_during_password_change path =
    any (λ p. str_eq p path)
      ("/api/auth/password" ∷ "/api/auth/account" ∷ "/api/auth/logout" ∷ "/api/logout" ∷ [])

-- `strip_prefix("Bearer ")`
unfoldable pub bearer : Option String → Option String
bearer none = none
bearer (some h) = if starts_with h "Bearer " then some (slice h 7 (utf8_length h)) else none

unfoldable pub request_token : Request → Option String
unfolding bearer
request_token req = elim req.cookie [ some token ↦ some token | none ↦ bearer req.authorization ]

abbrev pub check_claims : String → Option Claims → Checked
check_claims path none = unauthorized
check_claims path (some claims) =
    if not claims.requires_password_change || allows_during_password_change path
    then next
    else forbidden

abbrev pub check_token : SessionLibrary → Sessions → ℕ → String → Option String → Checked
check_token lib s now path none = unauthorized
check_token lib s now path (some token) = check_claims path (lib.decode s.jwt_secret now token)

-- What the middleware does with a request: it passes it on, or answers 403 or 401.
unfoldable pub auth_middleware : SessionLibrary → String → Sessions → ℕ → Request → Checked
unfolding request_token allows_during_password_change
auth_middleware lib authentication s now req =
    if str_eq authentication "disable"
    then next
    else check_token lib s now req.path (request_token req)

-- The state after it and the answer, whose cookie clears the session's.
unfoldable pub logout_handler : Bool → String → Bool → Sessions → Sessions × ApiResponse {0} Unit
logout_handler revoke_tokens_on_logout new_secret is_saved s = (
  if revoke_tokens_on_logout
      then record {
        jwt_secret = new_secret;
        disk_secret = if is_saved then new_secret else s.disk_secret;
        account = s.account;
      }
      else s,
  api_ok_empty,
)

-- The outcome of writing the account's file, which may leave anything behind when it fails.
pub data SaveAccount : Type 0 where
  saved : SaveAccount
  not_saved : String → AccountFile → SaveAccount

-- Writing the file, what `passwd` answers (an error's text), and whether the file is then removed.
pub record ChangeIo : Type 0 where
  pub save : SaveAccount
  pub passwd : Option String
  pub is_removed : Bool

abbrev pub with_account : Sessions → AccountFile → Sessions
with_account s file = record {
  jwt_secret = s.jwt_secret;
  disk_secret = s.disk_secret;
  account = file;
}

module _ (o : ChangeIo) where
  abbrev pub change_root : Sessions → Account → Option String → Sessions × ApiResponse {0} Unit
  change_root s updated none = (with_account s (holds updated), api_ok tt)
  change_root s updated (some e) = (
    with_account s (if o.is_removed then absent else holds updated),
    api_err ErrorCodes.generic (str_append "failed to change root password: " e),
  )

  abbrev pub save_updated : Sessions → Account → SaveAccount → Sessions × ApiResponse {0} Unit
  save_updated s updated saved = change_root s updated o.passwd
  save_updated s updated (not_saved e left) =
      (with_account s left, api_err ErrorCodes.generic (str_append "failed to save password: " e))

  abbrev pub store_hash : Sessions → String → Option String → Sessions × ApiResponse {0} Unit
  store_hash s username none = (s, api_err ErrorCodes.generic "failed to hash password")
  store_hash s username (some hashed) =
      save_updated s
        (record { username = username; password = hashed; must_change_password = false }) o.save

  abbrev pub change_to :
      SessionLibrary → Sessions → String → Option String → Sessions × ApiResponse {0} Unit
  change_to lib s username none = (s, api_err ErrorCodes.validation "invalid password")
  change_to lib s username (some new_plain) =
      if utf8_length new_plain == 0
      then (s, api_err ErrorCodes.validation "invalid password")
      else store_hash s username (lib.hash new_plain)

unfoldable pub change_password_handler :
    SessionLibrary → ChangeIo → String → String → Sessions → Sessions × ApiResponse {0} Unit
unfolding get_account
change_password_handler lib o username password s =
    if not (str_eq username (get_account lib s.account).username)
    then (s, api_err ErrorCodes.auth "Invalid username")
    else change_to o lib s username (decrypt_password lib.password password)

-- `GetAccountRsp`: the name alone.
unfoldable pub get_account_handler : SessionLibrary → Sessions → ApiResponse String
unfolding get_account
get_account_handler lib s = api_ok (get_account lib s.account).username

abbrev pub is_absent : AccountFile → Bool
is_absent absent = true
is_absent unreadable = false
is_absent (holds a) = false

unfoldable pub is_password_updated_handler : SessionLibrary → Sessions → ApiResponse Bool
unfolding get_account
is_password_updated_handler lib s =
    if is_absent s.account
    then api_ok false
    else api_ok (not (or_false (lib.verify "admin" (get_account lib s.account).password)))

-- The key that passwords are encrypted with, for the login page.
unfoldable pub get_encryption_key_handler : Option String → ApiResponse String
get_encryption_key_handler none = api_err ErrorCodes.generic "Failed to get encryption key"
get_encryption_key_handler (some key) = api_ok key
