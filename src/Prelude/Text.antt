-- ===== src/Prelude/Text.antt =====
-- Texts that the code walks, as lists of code points: `trim`, `to_uppercase` and `replace('-', "")`.
use Prim.Native.Nat.{ℕ, ◌+◌, ◌-◌, ◌*◌, ◌/◌, ◌%◌}
use Prim.Native.String.append
use Prim.Native.String.{String, ◌++◌ as str_append}
use mathlib.Core.Path.{◌≡◌, ap, ◌∙◌}
use mathlib.Core.Bool.{Bool, ◌&&◌, ◌||◌, true, false}
use mathlib.Core.Option.{Option, none, some}
use mathlib.Core.List.{List, [], ◌∷◌, ◌++◌}
use rustykvm.Prelude.Tests.{ltb, leb, ◌==◌, if◌then◌else◌}
use Prim.Native.Char.{code}

abbrev pub Text : Type 0
Text = List ℕ

abbrev pub codes : String → Text
codes String.[] = []
codes (String.◌∷◌ c s) = code c ∷ codes s

-- `char::is_whitespace`: Unicode's White_Space.
unfoldable pub is_whitespace : ℕ → Bool
is_whitespace c =
    (leb 9 c && leb c 13)
    || c == 32
    || c == 0x85
    || c == 0xa0
    || c == 0x1680
    || (leb 0x2000 c && leb c 0x200a)
    || c == 0x2028
    || c == 0x2029
    || c == 0x202f
    || c == 0x205f
    || c == 0x3000

unfoldable pub trim_start : Text → Text
trim_start [] = []
trim_start (c ∷ s) = let rest = trim_start s in if is_whitespace c then rest else c ∷ s

-- The end is trimmed from the back: a character goes only if all behind it goes too.
unfoldable pub trim_end : Text → Text
trim_end [] = []
trim_end (c ∷ s) = elim (trim_end s) [
  | [] ↦ if is_whitespace c then [] else c ∷ []
  | d ∷ r ↦ c ∷ d ∷ r
]

unfoldable pub trim : Text → Text
unfolding trim_start trim_end is_whitespace
trim s = trim_end (trim_start s)

-- Upper case of one character: ASCII by the alphabet, all else by the tables of Unicode.
unfoldable pub upper : (ℕ → Text) → ℕ → Text
upper tables c =
    if leb b'a' c && leb c b'z' then (c - 32) ∷ [] else if ltb c 128 then c ∷ [] else tables c

unfoldable pub to_uppercase : (ℕ → Text) → Text → Text
unfolding upper
to_uppercase tables [] = []
to_uppercase tables (c ∷ s) = upper tables c ++ to_uppercase tables s

-- `replace('-', "")`
unfoldable pub without_dashes : Text → Text
without_dashes [] = []
without_dashes (c ∷ s) = let rest = without_dashes s in if c == b'-' then rest else c ∷ rest

-- `str::lines`: a line ends before each line feed, and a carriage return before that is not
-- of it; what follows the last line feed is a line unless it is empty.
unfoldable pub push_char : ℕ → Text → List Text → List Text
push_char c [] lines = (c ∷ []) ∷ []
push_char c (d ∷ s) [] = []
push_char c (d ∷ s) (l ∷ lines) = if (c == 13) && (d == 10) then l ∷ lines else (c ∷ l) ∷ lines

unfoldable pub lines : Text → List Text
unfolding push_char
lines [] = []
lines (c ∷ s) = let rest = lines s in if c == 10 then [] ∷ rest else push_char c s rest

-- Before and after the first `d`; the text itself and none without one.
unfoldable pub splitn_2 : ℕ → Text → Text × Option Text
splitn_2 d [] = ([], none)
splitn_2 d (c ∷ s) =
    let rest = splitn_2 d s in if c == d then ([], some s) else (c ∷ rest.0, rest.1)

-- `split(d)`
unfoldable pub push_part : ℕ → List Text → List Text
push_part c [] = (c ∷ []) ∷ []
push_part c (p ∷ parts) = (c ∷ p) ∷ parts

unfoldable pub split : ℕ → Text → List Text
unfolding push_part
split d [] = [] ∷ []
split d (c ∷ s) = let rest = split d s in if c == d then [] ∷ rest else push_part c rest

-- `str::parse` of an unsigned integer up to `max`: digits, and a plus sign before them at most.
unfoldable pub push_digits : ℕ → ℕ → Text → Option ℕ
push_digits max acc [] = some acc
push_digits max acc (c ∷ s) =
    let next = acc * 10 + (c - b'0') in
    let rest = push_digits max next s in
    if leb b'0' c && leb c b'9' && leb next max then rest else none

unfoldable pub parse_unsigned : ℕ → Text → Option ℕ
unfolding push_digits
parse_unsigned max [] = none
parse_unsigned max (c ∷ []) = if c == b'+' then none else push_digits max 0 (c ∷ [])
parse_unsigned max (c ∷ d ∷ s) =
    if c == b'+' then push_digits max 0 (d ∷ s) else push_digits max 0 (c ∷ d ∷ s)

-- A number below 1000 in decimal.
unfoldable pub print_short : ℕ → Text
print_short n =
    if ltb n 10
    then (b'0' + n) ∷ []
    else if ltb n 100
    then (b'0' + n / 10) ∷ (b'0' + n % 10) ∷ []
    else (b'0' + n / 100) ∷ (b'0' + n / 10 % 10) ∷ (b'0' + n % 10) ∷ []

-- What follows the prefix, if the text starts with it.
unfoldable pub strip_prefix : Text → Text → Option Text
strip_prefix [] s = some s
strip_prefix (p ∷ prefix) [] = none
strip_prefix (p ∷ prefix) (c ∷ s) =
    let rest = strip_prefix prefix s in if c == p then rest else none

-- `starts_with`
unfoldable pub has_prefix : Text → Text → Bool
has_prefix [] s = true
has_prefix (p ∷ prefix) [] = false
has_prefix (p ∷ prefix) (c ∷ s) = (c == p) && has_prefix prefix s

unfoldable pub contains : Text → Text → Bool
unfolding has_prefix
contains pattern [] = has_prefix pattern []
contains pattern (c ∷ s) = has_prefix pattern (c ∷ s) || contains pattern s

-- `split_whitespace`: the words between white space.
unfoldable pub push_word : ℕ → Text → List Text → List Text
unfolding is_whitespace
push_word c [] words = (c ∷ []) ∷ words
push_word c (d ∷ s) [] = (c ∷ []) ∷ []
push_word c (d ∷ s) (w ∷ words) = if is_whitespace d then (c ∷ []) ∷ w ∷ words else (c ∷ w) ∷ words

unfoldable pub split_whitespace : Text → List Text
unfolding is_whitespace push_word
split_whitespace [] = []
split_whitespace (c ∷ s) =
    let rest = split_whitespace s in if is_whitespace c then rest else push_word c s rest

pub codes-append : (s t : String) → codes (str_append s t) ≡ codes s ++ codes t
codes-append String.[] t = ap codes (append.nil t)
codes-append (String.◌∷◌ c s) t =
    ap codes (append.cons c s t) ∙ ap (λ r. code c ∷ r) (codes-append s t)
