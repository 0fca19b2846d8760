-- ===== src/Hid/Shortcuts.antt =====
-- server/src/hid.rs: the shortcuts' file, the mode of the gadget, and the leader key. serde_json is a
-- parameter, as are the outcomes of the files.
use rustykvm.Prelude.{
  String, ◌≡◌, refl, ap, Bool, true, false, not, Option, none, some, List, [], ◌∷◌, ◌++◌, arith,
  eq_iff, str_eq, ◌==◌, if◌then◌else◌, length, retain, All, list_eq, length-append,
}
use rustykvm.Prelude.{str_append}
use rustykvm.Prelude.Int.{negsuc}
use rustykvm.Prelude.Result.{Result, ok, err, FileWrite, written_file, complete}
use rustykvm.Prelude.Text.{Text, codes, trim}
use rustykvm.Api.{ApiResponse, api_ok, api_ok_empty, api_err}
use rustykvm.Api.ErrorCodes

pub record ShortcutKey : Type 0 where
  pub code : String
  pub label : String

pub record Shortcut : Type 0 where
  pub id : String
  pub keys : List ShortcutKey

-- Both forms of the file: an object around the list, and the list alone.
pub record ShortcutLibrary : Type 0 where
  pub from_store : Text → Option (List Shortcut)
  pub from_list : Text → Option (List Shortcut)
  pub to_store : List Shortcut → Text
  pub to_list : List Shortcut → Text

abbrev pub is_blank : Text → Bool
is_blank [] = true
is_blank (c ∷ s) = false

abbrev pub first_of : Option (List Shortcut) → Option (List Shortcut) → Option (List Shortcut)
first_of (some shortcuts) other = some shortcuts
first_of none other = other

-- `none` for an error: a file that is not read, or not understood.
unfoldable pub load_shortcuts : ShortcutLibrary → Bool → Option Text → Option (List Shortcut)
unfolding trim
load_shortcuts lib is_read none = some []
load_shortcuts lib is_read (some content) =
    if not is_read
    then none
    else if is_blank (trim content)
    then some []
    else first_of (lib.from_store content) (lib.from_list content)

abbrev pub or_default : Option (List Shortcut) → List Shortcut
or_default none = []
or_default (some shortcuts) = shortcuts

unfoldable pub get_shortcuts_handler :
    ShortcutLibrary → Bool → Option Text → ApiResponse (List Shortcut)
unfolding load_shortcuts
get_shortcuts_handler lib is_read file = api_ok (or_default (load_shortcuts lib is_read file))

-- The list alone is written, and a write that fails is passed over.
unfoldable pub add_shortcut_handler :
    ShortcutLibrary
    → Bool
    → FileWrite Text
    → String
    → List ShortcutKey
    → Option Text
    → ApiResponse {0} Unit × Option Text
unfolding load_shortcuts
add_shortcut_handler lib is_read w id keys file =
    let shortcuts = or_default (load_shortcuts lib is_read file) in
    (
      api_ok_empty,
      written_file w (lib.to_list (shortcuts ++ (record { id = id; keys = keys } ∷ []))),
    )

abbrev pub without_id : String → List Shortcut → List Shortcut
without_id id shortcuts = retain (λ s. not (str_eq s.id id)) shortcuts

-- `save_shortcuts` writes the object.
unfoldable pub delete_shortcut_handler :
    ShortcutLibrary
    → Bool
    → FileWrite Text
    → String
    → Option Text
    → ApiResponse {0} Unit × Option Text
unfolding load_shortcuts
delete_shortcut_handler lib is_read w id file =
    let shortcuts = or_default (load_shortcuts lib is_read file) in
    if not (length (without_id id shortcuts) == length shortcuts)
    then (api_ok_empty, written_file w (lib.to_store (without_id id shortcuts)))
    else (api_err ErrorCodes.not_found "not found", file)

-- The flag's text, or the error of reading it.
unfoldable pub get_hid_mode_handler : Result {0, 0} String Text → ApiResponse String
unfolding trim
get_hid_mode_handler (err e) = api_err (negsuc 0) (str_append "failed: " e)
get_hid_mode_handler (ok s) = api_ok (
    if list_eq (trim s) (codes "0x0510")
    then "normal"
    else if list_eq (trim s) (codes "0x0623")
    then "hid-only"
    else "unknown")

-- The script that is installed, if copying it succeeds; the restart is left out.
abbrev pub install : Bool → String → ApiResponse {0} Unit × Option String
install is_copied src =
    if is_copied then (api_ok_empty, some src) else (api_err ErrorCodes.generic "failed", none)

unfoldable pub set_hid_mode_handler : Bool → String → ApiResponse {0} Unit × Option String
set_hid_mode_handler is_copied mode =
    if str_eq mode "normal"
    then install is_copied "/kvmapp/system/init.d/S03usbdev"
    else if str_eq mode "hid-only"
    then install is_copied "/kvmapp/system/init.d/S03usbhid"
    else (api_err (negsuc 0) "invalid arguments", none)

-- The answer and the file after it; the outcome is an error's text, `left` is the file after a write that
-- breaks off, and removing a file that is not there is no error.
unfoldable pub set_leader_key_handler :
    Option String → Option Text → Text → Option Text → ApiResponse {0} Unit × Option Text
unfolding trim
set_leader_key_handler outcome left key file =
    if is_blank (trim key)
    then (elim file [
      | none ↦ (api_ok_empty, none)
      | some old ↦ (elim outcome [
        | none ↦ (api_ok_empty, none)
        | some e ↦ (api_err (negsuc 0) (str_append "reset failed: " e), some old)
      ])
    ])
    else (elim outcome [
      | none ↦ (api_ok_empty, some (trim key))
      | some e ↦ (api_err (negsuc 0) (str_append "write failed: " e), left)
    ])

unfoldable pub get_leader_key_handler : Option String → Option Text → ApiResponse Text
unfolding trim
get_leader_key_handler failure none = api_ok []
get_leader_key_handler failure (some s) = elim failure [
  | none ↦ api_ok (trim s)
  | some e ↦ api_err (negsuc 0) (str_append "read failed: " e)
]

without_id-added :
    (id : String) (keys : List ShortcutKey) (shortcuts : List Shortcut)
    → All (λ s. str_eq s.id id ≡ false) shortcuts
    → without_id id (shortcuts ++ (record { id = id; keys = keys } ∷ [])) ≡ shortcuts
without_id-added id keys [] h = rw ((eq_iff id id).1 refl) refl
without_id-added id keys (s ∷ shortcuts) (p, h) =
    rw p (ap (λ r. s ∷ r) (without_id-added id keys shortcuts h))

longer_by_one :
    (id : String) (keys : List ShortcutKey) (shortcuts : List Shortcut)
    → (length shortcuts == length (shortcuts ++ (record { id = id; keys = keys } ∷ []))) ≡ false
longer_by_one id keys shortcuts =
    let l = length-append shortcuts (record { id = id; keys = keys } ∷ []) in rw l (ground arith)

module _ (lib : ShortcutLibrary) where
  load-list :
      (l : List Shortcut)
      → is_blank (trim (lib.to_list l)) ≡ false
      → lib.from_store (lib.to_list l) ≡ none
      → lib.from_list (lib.to_list l) ≡ some l
      → load_shortcuts lib true (some (lib.to_list l)) ≡ some l
  unfolding load_shortcuts
  load-list l a b c = rw (a, b, c) refl

  load-store :
      (l : List Shortcut)
      → is_blank (trim (lib.to_store l)) ≡ false
      → lib.from_store (lib.to_store l) ≡ some l
      → load_shortcuts lib true (some (lib.to_store l)) ≡ some l
  unfolding load_shortcuts
  load-store l d e = rw (d, e) refl

-- A shortcut whose id is new is in the list after it is added and its file is written, behind those of
-- before, and deleting it brings back the list of before, whichever of the two forms each writes. The
-- readers take back what was written: the first one the object, and the second one the list.
pub delete-add_shortcut :
    (lib : ShortcutLibrary) (id : String) (keys : List ShortcutKey) (file : Option Text)
    (shortcuts : List Shortcut)
    → load_shortcuts lib true file ≡ some shortcuts
    → All (λ s. str_eq s.id id ≡ false) shortcuts
    → ((l : List Shortcut) → is_blank (trim (lib.to_list l)) ≡ false)
    → ((l : List Shortcut) → lib.from_store (lib.to_list l) ≡ none)
    → ((l : List Shortcut) → lib.from_list (lib.to_list l) ≡ some l)
    → ((l : List Shortcut) → is_blank (trim (lib.to_store l)) ≡ false)
    → ((l : List Shortcut) → lib.from_store (lib.to_store l) ≡ some l)
    → let (added, next) = add_shortcut_handler lib true complete id keys file in
      let (deleted, last) = delete_shortcut_handler lib true complete id next in
      (get_shortcuts_handler lib true next
        ≡ api_ok (shortcuts ++ (record { id = id; keys = keys } ∷ [])))
      × (deleted ≡ api_ok_empty)
      × (get_shortcuts_handler lib true last ≡ api_ok shortcuts)
unfolding add_shortcut_handler delete_shortcut_handler get_shortcuts_handler
delete-add_shortcut lib id keys file shortcuts loaded fresh a b c d e =
    let added = shortcuts ++ (record { id = id; keys = keys } ∷ []) in
    let listed = load-list lib added (a added) (b added) (c added) in
    let stored = load-store lib shortcuts (d shortcuts) (e shortcuts) in
    rw
      (
        loaded,
        listed,
        without_id-added id keys shortcuts fresh,
        longer_by_one id keys shortcuts,
        stored,
      )
      (refl, refl, refl)
