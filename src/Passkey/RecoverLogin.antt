-- ===== src/Passkey/RecoverLogin.antt =====
-- server/src/passkey/handlers.rs: `recover_handler_inner`, the login with a recovery code, and
-- `qr_code_handler` with the encoder of qr.rs. The address is that of `client_ip`.
pub mod Earned
mod Tests
use rustykvm.Prelude.{
  ℕ, zero, suc, ◌+◌, ◌-◌, ◌*◌, ◌/◌, ◌%◌, ◌^◌, ◌≤◌, ◌<◌, min, String, ◌≡◌, refl, sym, ap, ◌∙◌, ◌≢◌,
  ◌↔◌, ◌⊎◌, inl, inr, Bool, true, false, not, ◌&&◌, ◌||◌, Option, none, some, List, [], ◌∷◌, ◌++◌,
  map, arith, eq_iff, str_eq, ltb, leb, ◌==◌, if◌then◌else◌, ltb→lt, lt→ltb, ltb_of_le, leb→le,
  ==_iff, tests, Bool-cases, Option-cases, is_some_and, length, get_elem?, get_elem?-of_lt, get_or,
  take, drop, replicate, any, all, retain, All, sum, sum-append, list_eq, list_eq→eq, list_eq_refl,
  length-append, length-take, length-drop, take-append-drop, length-retain-le,
}
use Prim.Native.String.{slice}
use text.Mathlib.Text.{starts_with}
use rustykvm.Prelude.{str_append, utf8_length}
use rustykvm.Prelude.Result.{Result, ok, err}
use rustykvm.Prelude.Text.{Text}
use rustykvm.Auth.Login.{Account}
use rustykvm.Auth.Session.{SessionLibrary, Sessions, get_account, generate_token}
use rustykvm.Passkey.Recovery.{Recovery, Failure, SaveIo, validate_and_consume_code}

-- Why a login with a code is refused; the text of `failed` is that of the code's own failure.
pub data RecoverError : Type 0 where
  code_required : RecoverError
  invalid_code : RecoverError
  token_failed : RecoverError
  failed : Failure → RecoverError

pub record RecoverResponse : Type 0 where
  pub success : Bool
  pub token : Option String
  pub remaining_codes : Option ℕ
  pub error : Option RecoverError

abbrev pub refusal : RecoverError → RecoverResponse
refusal e = record { success = false; token = none; remaining_codes = none; error = some e }

abbrev pub token_response : ℕ → Result {0, 0} String String → RecoverResponse
token_response remaining (ok token) = record {
  success = true;
  token = some token;
  remaining_codes = some remaining;
  error = none;
}
token_response remaining (err e) = refusal token_failed

abbrev pub or_empty : Option Text → Text
or_empty none = []
or_empty (some code) = code

-- What the handler reads beside the request: the clocks, the session's duration and id, the file's answers.
pub record RecoverContext : Type 0 where
  pub now : ℕ
  pub later : ℕ
  pub duration : ℕ
  pub session_id : String
  pub io : SaveIo

module _ (lib : SessionLibrary) (tables : ℕ → Text) (c : RecoverContext) where
  abbrev pub answer_of : Sessions → Result Failure (Bool × ℕ) → RecoverResponse
  answer_of s (err e) = refusal (failed e)
  answer_of s (ok (false, remaining)) = refusal invalid_code
  answer_of s (ok (true, remaining)) = token_response remaining (
      generate_token lib c.duration c.now c.session_id s (get_account lib s.account).username
        (get_account lib s.account).must_change_password)

  abbrev pub recover_with : String → Text → Sessions → Recovery → Recovery × RecoverResponse
  recover_with ip [] s r = (r, refusal code_required)
  recover_with ip (x ∷ code) s r =
      let (next, result) = validate_and_consume_code tables c.io c.now c.later ip (x ∷ code) r in
      (next, answer_of s result)

  unfoldable pub recover_handler_inner :
      String → Option Text → Sessions → Recovery → Recovery × RecoverResponse
  unfolding validate_and_consume_code get_account generate_token
  recover_handler_inner ip recovery_code s r = recover_with ip (or_empty recovery_code) s r

-- The QR encoder's SVG, base64 both ways.
pub record QrLibrary : Type 0 where
  pub to_svg : String → Option String
  pub encode : String → String
  pub decode : String → Option (List ℕ)

-- `generate_qr_code_simple`
unfoldable pub generate_qr_code_simple : QrLibrary → String → Option String
generate_qr_code_simple lib text = elim (lib.to_svg text) [
  | none ↦ none
  | some svg ↦ some (str_append "data:image/svg+xml;base64," (lib.encode svg))
]

-- The picture, or a status with its text.
pub data QrAnswer : Type 0 where
  picture : List ℕ → QrAnswer
  status : ℕ → String → QrAnswer

abbrev pub decoded_picture : Option (List ℕ) → QrAnswer
decoded_picture none = status 500 "Failed to decode QR"
decoded_picture (some image_data) = picture image_data

abbrev pub picture_of : QrLibrary → Option String → QrAnswer
picture_of lib none = status 500 "Failed to generate QR"
picture_of lib (some qr_data) =
    if starts_with qr_data "data:image/png;base64,"
    then decoded_picture (lib.decode (slice qr_data 22 (utf8_length qr_data)))
    else status 500 "Invalid QR format"

unfoldable pub qr_code_handler : QrLibrary → String → QrAnswer
unfolding generate_qr_code_simple
qr_code_handler lib text =
    if utf8_length text == 0
    then status 400 "Missing text parameter"
    else if ltb 2048 (utf8_length text)
    then status 400 "Text too long for QR code"
    else if not (starts_with text "https://")
    then status 400 "Invalid URL format"
    else picture_of lib (generate_qr_code_simple lib text)
