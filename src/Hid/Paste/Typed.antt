-- ===== src/Hid/Paste/Typed.antt =====
-- What the host reads of a pasted text.
use rustykvm.Prelude.{
  ℕ, ◌≡◌, Bool, true, false, not, ◌&&◌, Option, none, some, List, [], ◌∷◌, ltb, ◌==◌, if◌then◌else◌,
  get_or,
}
use rustykvm.Prelude.{◌++◌, ◌||◌, ◌-◌, leb}
use rustykvm.Prelude.Text.{Text, codes}
use rustykvm.Hid.Engine.{HidIo, wrote}
use rustykvm.Hid.Layouts.{KeyEntry, get_key}

-- The US keyboard by the HID usage tables: the characters of the keys from usage 4 on, without and with
-- the shift key. A key without a character, as escape and backspace, is 0.
abbrev pub us_keys : Text
us_keys =
    codes "abcdefghijklmnopqrstuvwxyz1234567890\n"
    ++ (0 ∷ 0 ∷ codes "\t -=[]\\" ++ (0 ∷ codes ";'`,./"))

abbrev pub us_shifted_keys : Text
us_shifted_keys =
    codes "ABCDEFGHIJKLMNOPQRSTUVWXYZ!@#$%^&*()"
    ++ (0 ∷ 0 ∷ 0 ∷ 0 ∷ codes " _+{}|" ++ (0 ∷ codes ":\"~<>?"))

abbrev pub visible : ℕ → Option ℕ
visible c = if c == 0 then none else some c

-- The character that a US host takes a key for, with no modifier or with the left shift key.
unfoldable pub char_of : ℕ → ℕ → Option ℕ
char_of mods key =
    if ltb key 4
    then none
    else if mods == 0
    then visible (get_or us_keys (key - 4) 0)
    else if mods == 2
    then visible (get_or us_shifted_keys (key - 4) 0)
    else none

-- The characters of that keyboard: tab, line feed, and the printable ones of ASCII.
abbrev pub is_us_char : ℕ → Bool
is_us_char c = (c == 9) || (c == 10) || (leb 32 c && leb c 126)

-- A report with a key is a character, and one without is none.
abbrev pub push_char : Option ℕ → Text → Text
push_char none s = s
push_char (some c) s = c ∷ s

unfoldable pub read_reports : List (List ℕ) → Text
unfolding char_of
read_reports [] = []
read_reports (r ∷ reports) =
    let rest = read_reports reports in
    if get_or r 2 0 == 0 then rest else push_char (char_of (get_or r 0 0) (get_or r 2 0)) rest

is_char : ℕ → Option ℕ → Bool
is_char c none = false
is_char c (some d) = d == c

-- Every entry of the layout is a key that a US host reads as its character.
reads_entry : KeyEntry → Bool
unfolding is_char char_of
reads_entry (c, mods, key) = not (key == 0) && is_char c (char_of mods key)

-- Every write reaches the device.
abbrev pub AreWriting : (ℕ → HidIo) → Type 0
AreWriting io = (i : ℕ) → (io i).first ≡ wrote

-- The characters that the layout has.
abbrev pub has_key : List KeyEntry → ℕ → Bool
has_key m c = elim (get_key c m) [ none ↦ false | some key ↦ true ]

is_ascii : KeyEntry → Bool
is_ascii (c, mods, key) = ltb c 127
