-- ===== src/Network/Wol.antt =====
-- network/src/lib.rs: the list of known devices, in the file `WOL_MAC_FILE`. `none` stands for a
-- file that does not exist; reading it, writing it and the tool are outcomes.
pub mod Format
pub mod Lines
pub mod Abstract
pub mod Steps
pub mod Refinement
use rustykvm.Prelude.{
  ℕ, zero, suc, ◌+◌, ◌-◌, ◌*◌, ◌/◌, ◌%◌, ◌^◌, ◌≤◌, ◌<◌, min, String, ◌≡◌, refl, sym, ap, ◌∙◌, ◌≢◌,
  ◌↔◌, ◌⊎◌, inl, inr, Bool, true, false, not, ◌&&◌, ◌||◌, Option, none, some, List, [], ◌∷◌, ◌++◌,
  map, arith, eq_iff, str_eq, ltb, leb, ◌==◌, if◌then◌else◌, ltb→lt, lt→ltb, ltb_of_le, leb→le,
  ==_iff, tests, Bool-cases, Option-cases, is_some_and, length, get_elem?, get_elem?-of_lt, get_or,
  take, drop, replicate, any, all, retain, All, sum, sum-append, list_eq, list_eq→eq, list_eq_refl,
  length-append, length-take, length-drop, take-append-drop, length-retain-le,
}
use rustykvm.Prelude.{str_append}
use rustykvm.Prelude.Result.{Result, ok, err}
use rustykvm.Prelude.Text.{Text, codes, lines, splitn_2}
use rustykvm.Network.Error.{
  NetworkError, io, invalid_mac, command_failed, Write, written, failed, write,
}
use rustykvm.Network.Mac.{parse_mac, sanitize_name}

pub record WolEntry : Type 0 where
  pub mac : Text
  pub name : Text

abbrev pub WolFile : Type 0
WolFile = Option Text

-- `parts.get(1).unwrap_or(&"")`
abbrev pub or_empty : Option Text → Text
or_empty none = []
or_empty (some name) = name

abbrev pub is_empty : Text → Bool
is_empty [] = true
is_empty (c ∷ s) = false

-- The entry of one line, before the entries of the lines that follow.
abbrev pub push_entry : Text × Option Text → List WolEntry → List WolEntry
push_entry ([], rest) entries = entries
push_entry (c ∷ mac, rest) entries = record { mac = c ∷ mac; name = or_empty rest } ∷ entries

unfoldable pub entries_of : List Text → List WolEntry
entries_of [] = []
entries_of (line ∷ rest) = push_entry (splitn_2 b' ' line) (entries_of rest)

-- The outcomes of an operation on the file: reading it, making its directory, opening and writing it.
pub record WolIo : Type 0 where
  pub read : Option String
  pub create_dir : Option String
  pub write : Write

-- The errors are those of the outcomes; a file that does not exist is not read.
unfoldable pub get_wol_macs : WolIo → WolFile → Result NetworkError (List WolEntry)
unfolding entries_of
get_wol_macs o none = ok []
get_wol_macs o (some content) = elim o.read [
  | some e ↦ err (io e)
  | none ↦ ok (entries_of (lines content))
]

unfoldable pub line_of : Text → Text → Text
line_of mac name = if is_empty name then mac ++ 10 ∷ [] else mac ++ (b' ' ∷ (name ++ 10 ∷ []))

unfoldable pub print_entries : List WolEntry → Text
unfolding line_of
print_entries [] = []
print_entries (e ∷ entries) = line_of e.mac e.name ++ print_entries entries

unfoldable pub save_all_macs : WolIo → List WolEntry → Result {0, 0} NetworkError Unit × WolFile
unfolding print_entries
save_all_macs o entries = write o.write (print_entries entries)

-- The first entry with the address is renamed; none without one.
unfoldable pub rename_first : Text → Text → List WolEntry → Option (List WolEntry)
rename_first mac name [] = none
rename_first mac name (e ∷ entries) =
    let rest = rename_first mac name entries in
    if list_eq e.mac mac
    then some (record { mac = e.mac; name = name } ∷ entries)
    else (elim rest [ none ↦ none | some renamed ↦ some (e ∷ renamed) ])

abbrev pub save_renamed :
    WolIo → String → WolFile → Option (List WolEntry) → Result {0, 0} NetworkError Unit × WolFile
save_renamed o mac file none =
    (err (invalid_mac (str_append "MAC " (str_append mac " not found in cache"))), file)
save_renamed o mac file (some entries) = save_all_macs o entries

abbrev pub set_name_with :
    WolIo
    → String
    → String
    → WolFile
    → Result NetworkError (List WolEntry)
    → Result {0, 0} NetworkError Unit × WolFile
set_name_with o mac name file (err e) = (err e, file)
set_name_with o mac name file (ok entries) =
    save_renamed o mac file (rename_first (codes mac) (codes name) entries)

unfoldable pub set_wol_mac_name :
    WolIo → String → String → WolFile → Result {0, 0} NetworkError Unit × WolFile
unfolding get_wol_macs rename_first save_all_macs
set_wol_mac_name o mac name file = set_name_with o mac name file (get_wol_macs o file)

abbrev pub without_mac : Text → List WolEntry → List WolEntry
without_mac mac entries = retain (λ e. not (list_eq e.mac mac)) entries

abbrev pub delete_with :
    WolIo
    → String
    → WolFile
    → Result NetworkError (List WolEntry)
    → Result {0, 0} NetworkError Unit × WolFile
delete_with o mac file (err e) = (err e, file)
delete_with o mac file (ok entries) =
    if not (length (without_mac (codes mac) entries) == length entries)
    then save_all_macs o (without_mac (codes mac) entries)
    else (ok tt, file)

unfoldable pub delete_wol_mac : WolIo → String → WolFile → Result {0, 0} NetworkError Unit × WolFile
unfolding get_wol_macs save_all_macs
delete_wol_mac o mac file = delete_with o mac file (get_wol_macs o file)

-- What a file holds that is opened to append, and made when it is missing.
abbrev pub content_of : WolFile → Text
content_of none = []
content_of (some content) = content

unfoldable pub append_line :
    WolIo → (ℕ → Bool) → Text → Text → WolFile → Result {0, 0} NetworkError Unit × WolFile
unfolding line_of sanitize_name
append_line o is_alphanumeric mac name file = elim o.create_dir [
  | some e ↦ (err (io e), file)
  | none ↦ write o.write (content_of file ++ line_of mac (sanitize_name is_alphanumeric name))
]

abbrev pub save_with :
    WolIo
    → (ℕ → Bool)
    → Text
    → Text
    → WolFile
    → Result NetworkError (List WolEntry)
    → Result {0, 0} NetworkError Unit × WolFile
save_with o is_alphanumeric mac name file (err e) = (err e, file)
save_with o is_alphanumeric mac name file (ok entries) =
    if any (λ e. list_eq e.mac mac) entries
    then (ok tt, file)
    else append_line o is_alphanumeric mac name file

unfoldable pub save_mac :
    WolIo → (ℕ → Bool) → Text → Text → WolFile → Result {0, 0} NetworkError Unit × WolFile
unfolding get_wol_macs append_line
save_mac o is_alphanumeric mac name file =
    save_with o is_alphanumeric mac name file (get_wol_macs o file)

-- What `ether-wake` answers: it could not be started, it failed with its error output, or it was sent.
pub data Command : Type 0 where
  not_started : String → Command
  unsuccessful : String → Command
  success : Command

abbrev pub wake_with :
    WolIo
    → (ℕ → Bool)
    → (Text → Command)
    → WolFile
    → Result NetworkError Text
    → Result {0, 0} NetworkError Unit × WolFile
wake_with o is_alphanumeric ether_wake file (err e) = (err e, file)
wake_with o is_alphanumeric ether_wake file (ok formatted_mac) = elim (ether_wake formatted_mac) [
  | not_started e ↦ (err (io e), file)
  | unsuccessful err_msg ↦ (err (command_failed err_msg), file)
  | success ↦ (ok tt, (save_mac o is_alphanumeric formatted_mac [] file).1)
]

unfoldable pub wake_on_lan :
    WolIo
    → (ℕ → Text)
    → (ℕ → Bool)
    → (Text → Command)
    → String
    → WolFile
    → Result {0, 0} NetworkError Unit × WolFile
unfolding save_mac
wake_on_lan o tables is_alphanumeric ether_wake mac file =
    wake_with o is_alphanumeric ether_wake file (parse_mac tables mac)
