-- ===== src/Network/Mac.antt =====
-- network/src/lib.rs: `parse_mac` and `sanitize_name`. Unicode's tables are parameters.
pub mod Canonical
use rustykvm.Prelude.{
  ℕ, zero, suc, ◌+◌, ◌-◌, ◌*◌, ◌/◌, ◌%◌, ◌^◌, ◌≤◌, ◌<◌, min, String, ◌≡◌, refl, sym, ap, ◌∙◌, ◌≢◌,
  ◌↔◌, ◌⊎◌, inl, inr, Bool, true, false, not, ◌&&◌, ◌||◌, Option, none, some, List, [], ◌∷◌, ◌++◌,
  map, arith, eq_iff, str_eq, ltb, leb, ◌==◌, if◌then◌else◌, ltb→lt, lt→ltb, ltb_of_le, leb→le,
  ==_iff, tests, Bool-cases, Option-cases, is_some_and, length, get_elem?, get_elem?-of_lt, get_or,
  take, drop, replicate, any, all, retain, All, sum, sum-append, list_eq, list_eq→eq, list_eq_refl,
  length-append, length-take, length-drop, take-append-drop, length-retain-le,
}
use rustykvm.Prelude.Result.{Result, ok, err}
use rustykvm.Prelude.Text.{Text, codes, to_uppercase}
use rustykvm.Network.Error.{NetworkError, invalid_mac}

-- `['-', ':', '.']`
unfoldable pub is_separator : ℕ → Bool
is_separator c = c == b'-' || c == b':' || c == b'.'

-- `replace(['-', ':', '.'], "")`
unfoldable pub without_separators : Text → Text
without_separators [] = []
without_separators (c ∷ s) =
    let rest = without_separators s in if is_separator c then rest else c ∷ rest

-- `[0-9A-F]`
unfoldable pub is_hex : ℕ → Bool
is_hex c = (leb b'0' c && leb c b'9') || (leb b'A' c && leb c b'F')

-- `MAC_REGEX`
unfoldable pub is_match : Text → Bool
is_match s = (length s == 12) && all is_hex s

-- Two digits a round, a colon before every round but the first.
unfoldable pub push_pairs : Bool → Text → Text
push_pairs first (a ∷ b ∷ s) =
    let pair = a ∷ b ∷ push_pairs false s in if first then pair else b':' ∷ pair
push_pairs first _ = []

unfoldable pub parse_mac_text : (ℕ → Text) → Text → Option Text
unfolding is_match push_pairs
parse_mac_text tables mac =
    let clean_mac = without_separators (to_uppercase tables mac) in
    if not (is_match clean_mac) then none else some (push_pairs true clean_mac)

abbrev pub or_invalid : String → Option Text → Result NetworkError Text
or_invalid mac none = err (invalid_mac mac)
or_invalid mac (some text) = ok text

abbrev pub parse_mac : (ℕ → Text) → String → Result NetworkError Text
parse_mac tables mac = or_invalid mac (parse_mac_text tables (codes mac))

-- `sanitize_name`; `char::is_alphanumeric` is a parameter.
unfoldable pub sanitize_name : (ℕ → Bool) → Text → Text
sanitize_name is_alphanumeric name =
    retain (λ c. is_alphanumeric c || c == b'_' || c == b'-' || c == b'.') name
