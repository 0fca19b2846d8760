-- ===== src/Auth/Session/Tests.antt =====
-- Sessions and accounts at concrete inputs.
use rustykvm.Prelude.{
  ℕ, ◌≤◌, String, ◌≡◌, refl, ◌↔◌, true, false, ◌&&◌, Option, none, some, [], ◌∷◌, arith, str_eq,
  leb, if◌then◌else◌,
}
use rustykvm.Prelude.{str_append}
use rustykvm.Prelude.Int.{pos}
use rustykvm.Prelude.Text.{codes}
use rustykvm.Api.{api_ok, api_err}
use rustykvm.Api.ErrorCodes
use rustykvm.Auth.BruteForce.{SaveIo, Kept, check, is_locked}
use rustykvm.Auth.Password.{decrypt_password}
use rustykvm.Auth.Login.{
  Claims, LoginReq, Account, LoginConfig, LoginLibrary, is_right, login_handler_inner, try_password,
}
use rustykvm.Auth.Session.{
  holds, SessionLibrary, Sessions, Request, next, forbidden, unauthorized,
  allows_during_password_change, auth_middleware, logout_handler, ChangeIo, saved, get_account,
  change_password_handler, or_hash,
}
use rustykvm.Auth.Session.Tokens.{IsAdmitted, auth_middleware-IsAdmitted, login_until_logout}
use rustykvm.Auth.Session.Changes.{changed_password-is_right, root_failure_resets}
use rustykvm.Auth.ClientIp.{client_ip}

-- The claims that every test signs.
abbrev signed_claims : Claims
signed_claims = record {
  username = "admin";
  exp = 4600;
  requires_password_change = true;
  session_id = "id";
}

-- A token is the key, and stands for the one list of claims until it expires.
abbrev decode_key : String → ℕ → String → Option Claims
decode_key key now token = if str_eq key token && leb now 4600 then some signed_claims else none

abbrev lib : SessionLibrary
lib = record {
  password = record {
    url_decode = λ s. some s;
    decode = λ _. some (
        b'S' ∷ b'a' ∷ b'l' ∷ b't' ∷ b'e' ∷ b'd' ∷ b'_' ∷ b'_' ∷ 1 ∷ 2 ∷ 3 ∷ 4 ∷ 5 ∷ 6 ∷ 7 ∷ 8 ∷ []);
    md5 = λ _. 0 ∷ [];
    decrypt_padded = λ _ _ _. some [];
    from_utf8_lossy = λ _. "new";
    secret_key = some [];
  };
  hash = λ plain. some plain;
  verify = λ plain hash. some (str_eq plain hash);
  encode = λ key claims. some key;
  decode = decode_key;
}

abbrev sessions : Sessions
sessions = record {
  jwt_secret = "key";
  disk_secret = "key";
  account = holds (record { username = "admin"; password = "right"; must_change_password = true });
}

abbrev request : Request
request = record { cookie = none; authorization = some "Bearer key"; path = "/api/logout" }

auth_middleware-IsAdmitted_example :
    (auth_middleware lib "enable" sessions 1000 request ≡ next)
    ↔ IsAdmitted lib sessions 1000 request
auth_middleware-IsAdmitted_example =
    auth_middleware-IsAdmitted lib "enable" sessions 1000 request refl

passes : auth_middleware lib "enable" sessions 1000 request ≡ next
unfolding auth_middleware
passes = refl

abbrev elsewhere : Request
elsewhere = record { cookie = none; authorization = some "Bearer key"; path = "/api/vm/info" }

must_change : auth_middleware lib "enable" sessions 1000 elsewhere ≡ forbidden
unfolding auth_middleware
must_change = refl

-- A login library that signs with the key in memory, and a user who is right.
abbrev login : LoginLibrary
login = record {
  password = lib.password;
  verify = λ plain hash. some true;
  encode = λ claims. some "key";
  to_string = λ _. none;
}

abbrev io : SaveIo
io = record { written = true; renamed = true }

abbrev config : LoginConfig
config = record { authentication = "enable"; refresh_token_duration = 3600 }

abbrev admin : Account
admin = record { username = "admin"; password = "right"; must_change_password = true }

abbrev fresh : Kept
fresh = record {
  memory = record {
    attempts = [];
    security = record { login_lockout_duration = pos 300; login_max_failures = pos 5 };
  };
  file = none;
}

abbrev right : LoginReq
right = record { username = "admin"; password = "right" }

logged_in :
    (login_handler_inner login config io 1000 "10.0.0.7" "id" right admin fresh).1.cookie
    ≡ some "key"
unfolding login_handler_inner try_password check is_locked decrypt_password
logged_in = refl

some_key :
    (n : ℕ) (w : String)
    → some "key" ≡ some w
    → n ≤ 4600
    → decode_key "key" n w ≡ some signed_claims
some_key n w h l = let q : "key" ≡ w = ground (arith, h) in rw⁻¹ q (ground (arith, l))

no_old_key : (c : Claims) (n : ℕ) (w : String) → some "key" ≡ some w → decode_key "new" n w ≡ none
no_old_key c n w h = let q : "key" ≡ w = ground (arith, h) in rw⁻¹ q refl

login_until_logout_example :
    (2000 ≤ 4600
      → auth_middleware lib "enable" sessions 2000
          (record { cookie = some "key"; authorization = none; path = "/api/auth/password" })
        ≡ next)
    × (auth_middleware lib "enable"
          (logout_handler true "new" true sessions).0
          2000
          (record { cookie = some "key"; authorization = none; path = "/api/auth/password" })
        ≡ unauthorized)
unfolding allows_during_password_change
login_until_logout_example =
    login_until_logout lib login config io 1000 2000 "10.0.0.7" "id" right admin fresh "key"
      "/api/auth/password" "new" true none sessions refl logged_in refl some_key no_old_key

abbrev written : ChangeIo
written = record { save = saved; passwd = none; is_removed = true }

abbrev matching : LoginLibrary
matching = record {
  password = lib.password;
  verify = lib.verify;
  encode = λ claims. some "key";
  to_string = λ _. none;
}

decrypts : decrypt_password lib.password "cipher" ≡ some "new"
unfolding decrypt_password
decrypts = refl

changed_password-is_right_example :
    let (after, answer) = change_password_handler lib written "admin" "cipher" sessions in
    (answer ≡ api_ok tt)
    × (is_right matching
          (record { username = "admin"; password = "cipher" })
          (get_account lib after.account)
        ≡ true)
    × ((get_account lib after.account).must_change_password ≡ false)
unfolding get_account
changed_password-is_right_example =
    changed_password-is_right lib written "admin" "cipher" "new" "new" sessions matching refl
      decrypts refl refl refl refl decrypts refl

abbrev root_fails : ChangeIo
root_fails = record { save = saved; passwd = some "passwd root failed"; is_removed = true }

root_failure_resets_example :
    let (after, answer) = change_password_handler lib root_fails "admin" "cipher" sessions in
    (answer
      ≡ api_err ErrorCodes.generic
          (str_append "failed to change root password: " "passwd root failed"))
    × (get_account lib after.account ≡ record {
      username = "admin";
      password = or_hash (lib.hash "admin");
      must_change_password = true;
    })
unfolding get_account
root_failure_resets_example =
    root_failure_resets lib root_fails "admin" "cipher" "new" "new" sessions "passwd root failed"
      refl decrypts refl refl refl refl refl

-- What a client sends in the header is taken for its address, where forwarded headers are trusted.
forged :
    client_ip (some (codes "1.2.3.4, 10.0.0.7")) none (some (codes "10.0.0.1")) true
    ≡ codes "1.2.3.4"
unfolding client_ip
forged = refl
