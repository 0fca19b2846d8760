-- ===== src/Hid/Tests.antt =====
-- The reports and the profile at concrete inputs.
use rustykvm.Prelude.{ℕ, ◌≡◌, refl, true, false, none, some, List, [], ◌∷◌}
use rustykvm.Prelude.Int.{pos}
use rustykvm.Prelude.Text.{codes}
use rustykvm.Hid.Engine.{HidEngine, HidIo, wrote, failed}
use rustykvm.Hid.MouseScroll.{ScrollLibrary, new}
use rustykvm.Hid.MouseScroll.Valid.{IsValid, set_all, set_all-new-IsValid}
use rustykvm.Hid.Jiggler.{jiggle_tick}
use rustykvm.Hid.Layouts.{get_char_map, get_key}
use rustykvm.Hid.Paste.{paste_handler}
use rustykvm.Hid.Paste.Typed.{read_reports}

abbrev unplugged_once : HidIo
unplugged_once = record { first = failed "EPIPE"; reopened = true; second = wrote }

abbrev engine : HidEngine
engine = record { keyboard = true; mouse_rel = true; mouse_abs = false }

abbrev report : List ℕ
report = 0 ∷ 0 ∷ 4 ∷ 0 ∷ 0 ∷ 0 ∷ 0 ∷ 0 ∷ []

-- A library that reads nothing.
abbrev lib : ScrollLibrary
lib = record {
  from_str = λ t. none;
  from_bare_str = λ t. some (record { direction = pos 7; interval = 0 });
  to_string = λ f. some [];
}

set_all-new-IsValid_example :
    IsValid
      (set_all lib
        ((true, record { direction = pos 1; interval = 300 }) ∷ [])
        (new lib (some (codes "{}")))).config
set_all-new-IsValid_example =
    set_all-new-IsValid lib (some (codes "{}"))
      ((true, record { direction = pos 1; interval = 300 }) ∷ [])

jiggles :
    (jiggle_tick unplugged_once unplugged_once 20000
      (record { last_activity_ms = 1000; config = some (codes "relative\n") })
      engine).1
    ≡ (0 ∷ 10 ∷ 10 ∷ 0 ∷ []) ∷ (0 ∷ 0xf6 ∷ 0xf6 ∷ 0 ∷ []) ∷ []
unfolding jiggle_tick
jiggles = refl

abbrev all_written : ℕ → HidIo
all_written i = record { first = wrote; reopened = true; second = wrote }

typed : read_reports (paste_handler all_written "Hi ä!" none engine).2 ≡ codes "Hi !"
unfolding paste_handler read_reports get_char_map
typed = refl

-- In the German layout the equals sign is typed as the acute accent, and in the French one the
-- less-than sign as the full stop.
german : get_key b'=' (get_char_map "de") ≡ get_key 180 (get_char_map "de")
unfolding get_key get_char_map
german = refl

french : get_key b'<' (get_char_map "fr") ≡ get_key b'.' (get_char_map "fr")
unfolding get_key get_char_map
french = refl
