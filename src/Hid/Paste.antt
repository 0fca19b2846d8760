-- ===== src/Hid/Paste.antt =====
-- server/src/hid.rs: `paste_handler`, which types a text. The devices' answers to the report `i` are `io i`.
pub mod Typed
use rustykvm.Prelude.{
  ℕ, zero, suc, ◌+◌, ◌-◌, ◌*◌, ◌/◌, ◌%◌, ◌^◌, ◌≤◌, ◌<◌, min, String, ◌≡◌, refl, sym, ap, ◌∙◌, ◌≢◌,
  ◌↔◌, ◌⊎◌, inl, inr, Bool, true, false, not, ◌&&◌, ◌||◌, Option, none, some, List, [], ◌∷◌, ◌++◌,
  map, arith, eq_iff, str_eq, ltb, leb, ◌==◌, if◌then◌else◌, ltb→lt, lt→ltb, ltb_of_le, leb→le,
  ==_iff, tests, Bool-cases, Option-cases, is_some_and, length, get_elem?, get_elem?-of_lt, get_or,
  take, drop, replicate, any, all, retain, All, sum, sum-append, list_eq, list_eq→eq, list_eq_refl,
  length-append, length-take, length-drop, take-append-drop, length-retain-le,
}
use rustykvm.Prelude.{utf8_length}
use rustykvm.Prelude.Text.{Text, codes}
use rustykvm.Api.{ApiResponse, api_ok_empty, api_err}
use rustykvm.Api.ErrorCodes
use rustykvm.Hid.Engine.{HidEngine, HidIo, Answer, send_keyboard}
use rustykvm.Hid.Layouts.{KeyEntry, get_char_map, get_key}

abbrev pub key_up : List ℕ
key_up = 0 ∷ 0 ∷ 0 ∷ 0 ∷ 0 ∷ 0 ∷ 0 ∷ 0 ∷ []

abbrev pub key_down : ℕ → ℕ → List ℕ
key_down mods code = mods ∷ 0 ∷ code ∷ 0 ∷ 0 ∷ 0 ∷ 0 ∷ 0 ∷ []

-- One key, down and up: the engine after it, and the reports that reached the keyboard.
unfoldable pub press : (ℕ → HidIo) → ℕ → ℕ × ℕ → HidEngine → HidEngine × List (List ℕ)
unfolding send_keyboard
press io i (mods, code) e =
    let down = send_keyboard (io i) e (key_down mods code) in
    let up = send_keyboard (io (i + 1)) down.engine key_up in
    (up.engine, down.reports ++ up.reports)

-- The characters in order; one that the layout lacks is passed over.
unfoldable pub type_text :
    (ℕ → HidIo) → ℕ → List KeyEntry → Text → HidEngine → HidEngine × List (List ℕ)
unfolding press get_key
type_text io i m [] e = (e, [])
type_text io i m (c ∷ s) e = elim (get_key c m) [
  | none ↦ type_text io i m s e
  | some key ↦
      let (e', reports) = press io i key e in
      let (last, rest) = type_text io (i + 2) m s e' in (last, reports ++ rest)
]

abbrev pub or_default : Option String → String
or_default none = ""
or_default (some lang) = lang

-- The answer, the engine after it, and the reports that reached the keyboard.
unfoldable pub paste_handler :
    (ℕ → HidIo)
    → String
    → Option String
    → HidEngine
    → ApiResponse {0} Unit × HidEngine × List (List ℕ)
unfolding type_text get_char_map
paste_handler io content language e =
    if ltb 1024 (utf8_length content)
    then (api_err ErrorCodes.validation "content too long", e, [])
    else (let (last, reports) =
          type_text io 0 (get_char_map (or_default language)) (codes content) e in
        (api_ok_empty, last, reports))
