-- ===== src/Passkey/RecoverLogin/Earned.antt =====
-- Who gets a token for a recovery code, and that nobody gets a picture.
use rustykvm.Prelude.{
  ℕ, ◌<◌, String, ◌≡◌, refl, sym, ap, ◌∙◌, ◌≢◌, inl, inr, Bool, true, false, not, ◌&&◌, Option,
  none, some, List, [], ◌∷◌, ◌++◌, arith, ltb, ◌==◌, if◌then◌else◌, Bool-cases, get_or,
}
use rustykvm.Prelude.{str_append, utf8_length}
use rustykvm.Prelude.{◌+◌}
use rustykvm.Prelude.Result.{Result, ok, err, is_complete}
use rustykvm.Prelude.Text.{Text, codes, codes-append}
use text.Mathlib.Text.{starts_with}
use text.Mathlib.TextEquality.{starts_with_iff}
use rustykvm.Auth.Login.{Claims}
use rustykvm.Auth.Session.{SessionLibrary, Sessions, get_account, generate_token, or_failed}
use rustykvm.Passkey.Recovery.{
  RecoveryCode, Recovery, unused_count, Failure, SaveIo, check_rate_limit, normalize, consume,
  redeem, validate_and_consume_code,
}
use rustykvm.Passkey.Recovery.Consuming.{live_matches, validate_and_consume_code_lem}
use rustykvm.Passkey.RecoverLogin.{
  token_response, or_empty, RecoverContext, answer_of, recover_with, recover_handler_inner,
  QrLibrary, generate_qr_code_simple, picture, status, picture_of, qr_code_handler,
}

module _ (lib : SessionLibrary) (tables : ℕ → Text) (c : RecoverContext) where
  response_earned :
      (remaining : ℕ) (o : Result {0, 0} String String) (token : String)
      → (token_response remaining o).token ≡ some token
      → o ≡ ok token
  response_earned remaining (ok t) token h = ground (arith, h)
  response_earned remaining (err e) token h = cc

  -- The claims of the account that is read, with its duty to change the password.
  abbrev pub account_claims : Sessions → Claims
  account_claims s = record {
    username = (get_account lib s.account).username;
    exp = c.now + c.duration;
    requires_password_change = (get_account lib s.account).must_change_password;
    session_id = c.session_id;
  }

  generated-signed :
      (s : Sessions) (o : Option String) (token : String) → or_failed o ≡ ok token → o ≡ some token
  generated-signed s none token h = cc
  generated-signed s (some t) token h = ground (arith, h)

  answer_earned :
      (s : Sessions) (result : Result Failure (Bool × ℕ)) (token : String)
      → (answer_of lib tables c s result).token ≡ some token
      → (remaining : ℕ) × (result ≡ ok (true, remaining))
        × (lib.encode s.jwt_secret (account_claims s) ≡ some token)
  unfolding generate_token
  answer_earned s (err e) token h = cc
  answer_earned s (ok (false, remaining)) token h = cc
  answer_earned s (ok (true, remaining)) token h = (
    remaining,
    refl,
    generated-signed s (lib.encode s.jwt_secret (account_claims s)) token (
        response_earned remaining (or_failed (lib.encode s.jwt_secret (account_claims s))) token h),
  )

saving_works :
    (io : SaveIo) (typed : Text) (cs : List RecoveryCode) (remaining : ℕ)
    → (redeem io typed cs).1 ≡ ok (true, remaining)
    → is_complete io.written && io.permitted ≡ true
unfolding redeem
saving_works io typed cs remaining h = elim (Bool-cases (is_complete io.written && io.permitted)) [
  | inl e ↦ e
  | inr e ↦ absurd (ground (arith, e, h))
]

-- What a call that answers true went through: the rate limit allowed it, the file was saved, and an unused
-- code matched. After it there is one match and one unused code less.
abbrev pub IsRedeemed : (ℕ → Text) → SaveIo → ℕ → ℕ → String → Text → Recovery → Type 0
IsRedeemed tables io now later ip input r =
    ((check_rate_limit now ip r.limits).1 ≡ true)
    × (is_complete io.written && io.permitted ≡ true)
    × ((cs cs' : List RecoveryCode) × (r.file ≡ some cs)
        × ((validate_and_consume_code tables io now later ip input r).0.file ≡ some cs')
        × (live_matches (normalize tables input) cs' + 1 ≡ live_matches (normalize tables input) cs)
        × (unused_count cs' + 1 ≡ unused_count cs))

module _ (tables : ℕ → Text) (io : SaveIo) (now later : ℕ) (ip : String) (input : Text)
    (r : Recovery) (remaining : ℕ) where
  checked_file :
      (file : Option (List RecoveryCode))
      → r.file ≡ file
      → (check_rate_limit now ip r.limits).1 ≡ true
      → (validate_and_consume_code tables io now later ip input r).1 ≡ ok (true, remaining)
      → IsRedeemed tables io now later ip input r
  unfolding validate_and_consume_code
  checked_file none e allowed h = absurd (ground (arith, e, allowed, h))
  checked_file (some cs) e allowed h =
      let result : (redeem io (normalize tables input) cs).1 ≡ ok (true, remaining) =
        sym (rw (allowed, e) refl) ∙ h in
      let works = saving_works io (normalize tables input) cs remaining result in
      let (file, answer, less, unused, none_left) =
        validate_and_consume_code_lem tables io now later ip input r cs allowed e works in
      let typed = normalize tables input in
      let matched : 0 < live_matches typed cs = ground (arith, sym answer ∙ h) in
      (
        allowed,
        works,
        (
          cs,
          consume typed cs,
          e,
          file,
          ground (arith, less, matched),
          ground (arith, unused, matched),
        ),
      )

  checked_code :
      (validate_and_consume_code tables io now later ip input r).1 ≡ ok (true, remaining)
      → IsRedeemed tables io now later ip input r
  unfolding validate_and_consume_code
  checked_code h = elim (Bool-cases (check_rate_limit now ip r.limits).1) [
    | inl e ↦ checked_file r.file refl e h
    | inr e ↦ absurd (ground (arith, e, h))
  ]

-- A login with a recovery code that is answered with a token was made with a code, from an address that
-- the rate limit allows, while the file of codes loads and is saved. An unused code matched what was
-- typed, and the saved file has one such code and one unused code less. The token signs the name of the
-- account that is read and its duty to change the password, until the session's duration has passed.
pub recovery_token_earned :
    (lib : SessionLibrary) (tables : ℕ → Text) (c : RecoverContext) (ip : String)
    (code : Option Text) (s : Sessions) (r : Recovery) (token : String)
    → (recover_handler_inner lib tables c ip code s r).1.token ≡ some token
    → let typed = or_empty code in
      (typed ≢ [])
      × IsRedeemed tables c.io c.now c.later ip typed r
      × ((recover_handler_inner lib tables c ip code s r).0
          ≡ (validate_and_consume_code tables c.io c.now c.later ip typed r).0)
      × (lib.encode s.jwt_secret (record {
        username = (get_account lib s.account).username;
        exp = c.now + c.duration;
        requires_password_change = (get_account lib s.account).must_change_password;
        session_id = c.session_id;
      })
          ≡ some token)
unfolding recover_handler_inner
recovery_token_earned lib tables c ip code s r token h = typed_earned (or_empty code) h
  where
    typed_earned :
        (typed : Text)
        → (recover_with lib tables c ip typed s r).1.token ≡ some token
        → (typed ≢ [])
          × IsRedeemed tables c.io c.now c.later ip typed r
          × ((recover_with lib tables c ip typed s r).0
              ≡ (validate_and_consume_code tables c.io c.now c.later ip typed r).0)
          × (lib.encode s.jwt_secret (account_claims lib tables c s) ≡ some token)
    typed_earned [] h = cc
    typed_earned (x ∷ typed) h =
        let (remaining, result, signed) =
          answer_earned lib tables c s
            (validate_and_consume_code tables c.io c.now c.later ip (x ∷ typed) r).1 token h in
        (
          λ e. cc,
          checked_code tables c.io c.now c.later ip (x ∷ typed) r remaining result,
          refl,
          signed,
        )

-- A text that begins as the data of an SVG does not begin as those of a PNG.
no_png :
    (x : String)
    → starts_with (str_append "data:image/svg+xml;base64," x) "data:image/png;base64," ≡ false
no_png x =
    elim (Bool-cases
      (starts_with (str_append "data:image/svg+xml;base64," x) "data:image/png;base64,")) [
        | inr e ↦ e
        | inl e ↦
            let (r, same) =
              (starts_with_iff (str_append "data:image/svg+xml;base64," x)
                  "data:image/png;base64,").0
                e in
            let listed : codes "data:image/png;base64," ++ codes r
                ≡ codes "data:image/svg+xml;base64," ++ codes x =
              sym (codes-append "data:image/png;base64," r)
              ∙ ap codes same
              ∙ codes-append "data:image/svg+xml;base64," x in
            let differs : get_or (codes "data:image/png;base64," ++ codes r) 11 0
                ≡ get_or (codes "data:image/svg+xml;base64," ++ codes x) 11 0 =
              ap (λ l. get_or l 11 0) listed in
            absurd (omega arith)
      ]

generated-no_picture :
    (lib : QrLibrary) (svg : Option String) (image_data : List ℕ)
    → picture_of lib (elim svg [
      | none ↦ none
      | some svg ↦ some (str_append "data:image/svg+xml;base64," (lib.encode svg))
    ])
      ≢ picture image_data
generated-no_picture lib none image_data h = cc
generated-no_picture lib (some svg) image_data h =
    absurd (ground (arith, no_png (lib.encode svg), h))

-- The handler of QR codes answers no text with a picture: the encoder's data are an SVG's, and the
-- handler takes those of a PNG.
pub qr_code_handler-no_picture :
    (lib : QrLibrary) (text : String) (image_data : List ℕ)
    → qr_code_handler lib text ≢ picture image_data
unfolding qr_code_handler generate_qr_code_simple
qr_code_handler-no_picture lib text image_data h =
    guarded (utf8_length text == 0) (ltb 2048 (utf8_length text))
      (not (starts_with text "https://")) h
  where
    guarded :
        (empty long plain : Bool)
        → (if empty
            then status 400 "Missing text parameter"
            else if long
            then status 400 "Text too long for QR code"
            else if plain
            then status 400 "Invalid URL format"
            else picture_of lib (elim (lib.to_svg text) [
              | none ↦ none
              | some svg ↦ some (str_append "data:image/svg+xml;base64," (lib.encode svg))
            ]))
          ≢ picture image_data
    guarded true long plain e = cc
    guarded false true plain e = cc
    guarded false false true e = cc
    guarded false false false e = generated-no_picture lib (lib.to_svg text) image_data e
