-- ===== src/Hid/Jiggler.antt =====
-- vm/src/jiggler.rs: the mouse jiggler. Times are milliseconds since the start, read by the caller.
use rustykvm.Prelude.{
  ℕ, ◌-◌, ◌*◌, Bool, true, false, Option, none, some, List, [], ◌∷◌, ◌++◌, ltb, if◌then◌else◌,
  list_eq,
}
use rustykvm.Prelude.Result.{FileWrite, written_file}
use rustykvm.Prelude.Text.{Text, codes, trim}
use rustykvm.Hid.Engine.{HidEngine, HidIo, send_mouse}

abbrev pub jiggler_interval : ℕ
jiggler_interval = 15

-- The time of the last activity, and the file that enables the jiggler with its mode.
pub record MouseJiggler : Type 0 where
  pub last_activity_ms : ℕ
  pub config : Option Text

unfoldable pub update_activity : ℕ → MouseJiggler → MouseJiggler
update_activity now_ms j = record { last_activity_ms = now_ms; config = j.config }

abbrev pub is_some : Option Text → Bool
is_some none = false
is_some (some t) = true

unfoldable pub is_enabled : MouseJiggler → Bool
is_enabled j = is_some j.config

unfoldable pub get_mode : MouseJiggler → Text
unfolding trim
get_mode j = elim j.config [ none ↦ codes "relative" | some content ↦ trim content ]

-- Enabling writes the file, which may break off, and disabling removes it, or not.
unfoldable pub enable : FileWrite Text → Text → MouseJiggler → MouseJiggler
enable w mode j = record { last_activity_ms = j.last_activity_ms; config = written_file w mode }

unfoldable pub disable : Bool → MouseJiggler → MouseJiggler
disable is_removed j =
    if is_removed then record { last_activity_ms = j.last_activity_ms; config = none } else j

-- The two reports of a jiggle.
abbrev pub reports_of : Bool → List ℕ × List ℕ
reports_of true =
    (0x00 ∷ 0x00 ∷ 0x3f ∷ 0x00 ∷ 0x3f ∷ 0x00 ∷ [], 0x00 ∷ 0xff ∷ 0x3f ∷ 0xff ∷ 0x3f ∷ 0x00 ∷ [])
reports_of false = (0x00 ∷ 0x0a ∷ 0x0a ∷ 0x00 ∷ [], 0x00 ∷ 0xf6 ∷ 0xf6 ∷ 0x00 ∷ [])

abbrev pub send_both : HidIo → HidIo → List ℕ × List ℕ → HidEngine → HidEngine × List (List ℕ)
send_both o o' (first, second) e =
    let a = send_mouse o e first in
    let b = send_mouse o' a.engine second in (b.engine, a.reports ++ b.reports)

-- One tick of the loop: the engine after it, and the reports that reached the mouse.
unfoldable pub jiggle_tick :
    HidIo → HidIo → ℕ → MouseJiggler → HidEngine → HidEngine × List (List ℕ)
unfolding send_mouse get_mode
jiggle_tick o o' now_ms j e = elim j.config [
  | none ↦ (e, [])
  | some content ↦
      if ltb (now_ms - j.last_activity_ms) (jiggler_interval * 1000)
      then (e, [])
      else send_both o o' (reports_of (list_eq (trim content) (codes "absolute"))) e
]
