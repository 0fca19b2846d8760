-- ===== src/Passkey/RecoverLogin/Tests.antt =====
-- A login with a recovery code, and a QR code, at concrete inputs.
use rustykvm.Prelude.{ℕ, ◌≡◌, refl, ◌≢◌, true, false, none, some, [], ◌∷◌, str_eq}
use rustykvm.Prelude.Result.{complete}
use rustykvm.Prelude.Text.{Text, codes, trim, to_uppercase, without_dashes}
use rustykvm.Auth.Session.{holds, SessionLibrary, Sessions, get_account}
use rustykvm.Passkey.Recovery.{Recovery, check_rate_limit, redeem, validate_and_consume_code}
use rustykvm.Passkey.RecoverLogin.{
  RecoverContext, recover_handler_inner, QrLibrary, qr_code_handler, status,
}
use rustykvm.Passkey.RecoverLogin.Earned.{IsRedeemed, recovery_token_earned}

-- A token is the key.
abbrev lib : SessionLibrary
lib = record {
  password = record {
    url_decode = λ s. some s;
    decode = λ _. none;
    md5 = λ _. 0 ∷ [];
    decrypt_padded = λ _ _ _. none;
    from_utf8_lossy = λ _. "";
    secret_key = none;
  };
  hash = λ plain. some plain;
  verify = λ plain hash. some (str_eq plain hash);
  encode = λ key claims. some key;
  decode = λ key now token. none;
}

abbrev sessions : Sessions
sessions = record {
  jwt_secret = "key";
  disk_secret = "key";
  account = holds (record { username = "admin"; password = "right"; must_change_password = false });
}

abbrev context : RecoverContext
context = record {
  now = 1000;
  later = 1000;
  duration = 3600;
  session_id = "id";
  io = record { written = complete; permitted = true };
}

abbrev no_tables : ℕ → Text
no_tables c = c ∷ []

abbrev recovery : Recovery
recovery = record {
  limits = [];
  file = some (record { code = codes "ABCD-EFGH-JKLM-NPQR"; used = false } ∷ []);
}

abbrev typed : Text
typed = codes "abcdefghjklmnpqr"

recovered :
    (recover_handler_inner lib no_tables context "10.0.0.7" (some typed) sessions recovery).1.token
    ≡ some "key"
unfolding recover_handler_inner check_rate_limit redeem without_dashes to_uppercase trim
recovered = refl

recovery_token_earned_example :
    (typed ≢ [])
    × IsRedeemed no_tables context.io 1000 1000 "10.0.0.7" typed recovery
    × ((recover_handler_inner lib no_tables context "10.0.0.7" (some typed) sessions recovery).0
        ≡ (validate_and_consume_code no_tables context.io 1000 1000 "10.0.0.7" typed recovery).0)
    × (lib.encode "key" (record {
      username = (get_account lib sessions.account).username;
      exp = 4600;
      requires_password_change = (get_account lib sessions.account).must_change_password;
      session_id = "id";
    })
        ≡ some "key")
recovery_token_earned_example =
    recovery_token_earned lib no_tables context "10.0.0.7" (some typed) sessions recovery "key"
      recovered

abbrev qr : QrLibrary
qr = record { to_svg = λ s. some s; encode = λ s. s; decode = λ s. some [] }

other_scheme : qr_code_handler qr "http://host" ≡ status 400 "Invalid URL format"
unfolding qr_code_handler
other_scheme = refl
