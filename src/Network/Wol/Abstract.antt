-- ===== src/Network/Wol/Abstract.antt =====
-- The list of devices without its file: what each operation does to the entries.
use rustykvm.Prelude.{
  ℕ, String, ◌≡◌, Bool, Option, none, some, List, [], ◌∷◌, ◌++◌, if◌then◌else◌, any, All, list_eq,
}
use rustykvm.Prelude.{str_append}
use rustykvm.Prelude.Result.{Result, ok, err}
use rustykvm.Prelude.Text.{Text, codes}
use rustykvm.Network.Error.{NetworkError, io, invalid_mac, command_failed}
use rustykvm.Network.Mac.{parse_mac}
use rustykvm.Network.Wol.{
  WolEntry, WolFile, WolIo, print_entries, rename_first, set_wol_mac_name, without_mac,
  delete_wol_mac, content_of, Command, not_started, unsuccessful, success, wake_on_lan,
}
use rustykvm.Network.Wol.Lines.{IsLineChar}
use rustykvm.Network.Wol.Format.{IsClean}

pub data WolOp : Type 0 where
  wake : String → WolOp
  set_name : String → String → WolOp
  delete : String → WolOp

-- A new name has no line end.
abbrev pub IsCleanOp : WolOp → Type 0
IsCleanOp (wake mac) = Unit
IsCleanOp (set_name mac name) = All IsLineChar (codes name)
IsCleanOp (delete mac) = Unit

-- The file holds the printed entries, and a missing file holds none.
abbrev pub Represents : WolFile → List WolEntry → Type 0
Represents file entries = (content_of file ≡ print_entries entries) × All IsClean entries

abbrev pub add_entry : Text → List WolEntry → List WolEntry
add_entry mac entries =
    if any (λ e. list_eq e.mac mac) entries
    then entries
    else entries ++ (record { mac = mac; name = [] } ∷ [])

abbrev pub renamed_or :
    String
    → List WolEntry
    → Option (List WolEntry)
    → Result {0, 0} NetworkError Unit × List WolEntry
renamed_or mac entries none =
    (err (invalid_mac (str_append "MAC " (str_append mac " not found in cache"))), entries)
renamed_or mac entries (some renamed) = (ok tt, renamed)

module _ (tables : ℕ → Text) (is_alphanumeric : ℕ → Bool) (ether_wake : Text → Command) where
  abbrev pub add_woken :
      List WolEntry → Result NetworkError Text → Result {0, 0} NetworkError Unit × List WolEntry
  add_woken entries (err e) = (err e, entries)
  add_woken entries (ok mac) = elim (ether_wake mac) [
    | not_started e ↦ (err (io e), entries)
    | unsuccessful err_msg ↦ (err (command_failed err_msg), entries)
    | success ↦ (ok tt, add_entry mac entries)
  ]

  -- The operations on the list.
  abbrev pub step_list : WolOp → List WolEntry → Result {0, 0} NetworkError Unit × List WolEntry
  step_list (wake mac) entries = add_woken entries (parse_mac tables mac)
  step_list (set_name mac name) entries =
      renamed_or mac entries (rename_first (codes mac) (codes name) entries)
  step_list (delete mac) entries = (ok tt, without_mac (codes mac) entries)

  -- The operations on the file.
  abbrev pub step_file : WolIo → WolOp → WolFile → Result {0, 0} NetworkError Unit × WolFile
  step_file o (wake mac) file = wake_on_lan o tables is_alphanumeric ether_wake mac file
  step_file o (set_name mac name) file = set_wol_mac_name o mac name file
  step_file o (delete mac) file = delete_wol_mac o mac file

  abbrev pub run_list :
      List WolOp → List WolEntry → List (Result {0, 0} NetworkError Unit) × List WolEntry
  run_list [] entries = ([], entries)
  run_list (op ∷ ops) entries =
      let (answer, next) = step_list op entries in
      let (answers, last) = run_list ops next in (answer ∷ answers, last)

  abbrev pub run_file :
      WolIo → List WolOp → WolFile → List (Result {0, 0} NetworkError Unit) × WolFile
  run_file o [] file = ([], file)
  run_file o (op ∷ ops) file =
      let (answer, next) = step_file o op file in
      let (answers, last) = run_file o ops next in (answer ∷ answers, last)
