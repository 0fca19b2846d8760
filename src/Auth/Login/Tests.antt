-- ===== src/Auth/Login/Tests.antt =====
-- Runs of `login_handler_inner`, and the theorems at concrete inputs.
use rustykvm.Prelude.{◌≡◌, refl, true, false, none, some, [], ◌∷◌, arith, str_eq}
use rustykvm.Prelude.Int.{pos}
use rustykvm.Prelude.Assoc.{lookup}
use rustykvm.Auth.BruteForce.{is_locked, SaveIo, Kept, locked_error, check, record_failure}
use rustykvm.Auth.Password.{decrypt_password}
use rustykvm.Auth.Login.{
  LoginReq, Account, LoginConfig, LoginLibrary, refused, try_password, login_handler_inner,
}
use rustykvm.Auth.Login.Checks.{IsAccepted, password_login_sound, locked_after_wrong}

-- A hash that is the password itself, and tokens that are the user's name.
abbrev lib : LoginLibrary
lib = record {
  password = record {
    url_decode = λ s. some s;
    decode = λ _. none;
    md5 = λ _. 0 ∷ [];
    decrypt_padded = λ _ _ _. none;
    from_utf8_lossy = λ _. "";
    secret_key = none;
  };
  verify = λ plain hash. some (str_eq plain hash);
  encode = λ claims. some claims.username;
  to_string = λ _. none;
}

abbrev io : SaveIo
io = record { written = true; renamed = true }

abbrev config : LoginConfig
config = record { authentication = "enable"; refresh_token_duration = 3600 }

abbrev account : Account
account = record { username = "admin"; password = "right"; must_change_password = false }

abbrev kept : Kept
kept = record {
  memory = record {
    attempts = ("10.0.0.7", record { failures = 4; last_failed = 990; lockout_end = 0 }) ∷ [];
    security = record { login_lockout_duration = pos 300; login_max_failures = pos 5 };
  };
  file = none;
}

abbrev right : LoginReq
right = record { username = "admin"; password = "right" }

abbrev wrong : LoginReq
wrong = record { username = "admin"; password = "guess" }

logs_in :
    (login_handler_inner lib config io 1000 "10.0.0.7" "id" right account kept).1.cookie
    ≡ some "admin"
unfolding login_handler_inner try_password check is_locked decrypt_password
logs_in = refl

password_login_sound_example :
    (check kept.memory 1000 "10.0.0.7" ≡ none)
    × (right.username ≡ account.username)
    × IsAccepted lib right.password account.password
    × (lib.encode (record {
      username = "admin";
      exp = 4600;
      requires_password_change = false;
      session_id = "id";
    })
        ≡ some "admin")
    × (lookup "10.0.0.7"
          (login_handler_inner lib config io 1000 "10.0.0.7" "id" right account
            kept).0.memory.attempts
        ≡ none)
password_login_sound_example =
    password_login_sound lib config io 1000 "10.0.0.7" "id" right account kept "admin" refl logs_in

locked_after_wrong_example :
    let (after, answer) =
      login_handler_inner lib config io 1000 "10.0.0.7" "id" wrong account kept in
    (answer ≡ refused locked_error)
    × (login_handler_inner lib config io 1299 "10.0.0.7" "id2" right account after
        ≡ (after, refused locked_error))
unfolding check record_failure is_locked decrypt_password
locked_after_wrong_example =
    locked_after_wrong lib config io io 1000 1299 "10.0.0.7" "id" "id2" wrong right account kept
      locked_error (record { duration = omega arith; most = omega arith; enabled = refl }) refl refl
      refl refl (omega arith) (omega arith)
