-- ===== src/Vm/Scripts.antt =====
-- server/src/vm.rs: the names of scripts and the handlers that run and delete them. A path is the text
-- that `Path` holds; `alphabet` tells which characters beyond ASCII are alphanumeric.
pub mod Inside
use rustykvm.Prelude.{
  ℕ, zero, suc, ◌+◌, ◌-◌, ◌*◌, ◌/◌, ◌%◌, ◌^◌, ◌≤◌, ◌<◌, min, String, ◌≡◌, refl, sym, ap, ◌∙◌, ◌≢◌,
  ◌↔◌, ◌⊎◌, inl, inr, Bool, true, false, not, ◌&&◌, ◌||◌, Option, none, some, List, [], ◌∷◌, ◌++◌,
  map, arith, eq_iff, str_eq, ltb, leb, ◌==◌, if◌then◌else◌, ltb→lt, lt→ltb, ltb_of_le, leb→le,
  ==_iff, tests, Bool-cases, Option-cases, is_some_and, length, get_elem?, get_elem?-of_lt, get_or,
  take, drop, replicate, any, all, retain, All, sum, sum-append, list_eq, list_eq→eq, list_eq_refl,
  length-append, length-take, length-drop, take-append-drop, length-retain-le,
}
use rustykvm.Prelude.Int.{negsuc}
use rustykvm.Prelude.Result.{Result, ok, err}
use rustykvm.Prelude.Text.{Text, codes, split, has_prefix, contains}
use rustykvm.Api.{ApiResponse, api_ok, api_ok_empty, api_err}
use rustykvm.Api.ErrorCodes.{generic}

abbrev pub script_directory : Text
script_directory = codes "/etc/kvm/scripts"

-- `char::is_alphanumeric`: ASCII's letters and digits, and Unicode's tables beyond them.
unfoldable pub is_alphanumeric : (ℕ → Bool) → ℕ → Bool
is_alphanumeric alphabet c =
    (leb b'0' c && leb c b'9')
    || (leb b'A' c && leb c b'Z')
    || (leb b'a' c && leb c b'z')
    || (leb 128 c && alphabet c)

abbrev pub is_kept : (ℕ → Bool) → ℕ → Bool
is_kept alphabet c = is_alphanumeric alphabet c || c == b'_' || c == b'-' || c == b'.' || c == b' '

abbrev pub is_empty : Text → Bool
is_empty [] = true
is_empty (c ∷ s) = false

abbrev pub checked_name : Text → Option Text
checked_name sanitized =
    if is_empty sanitized || contains (codes "..") sanitized then none else some sanitized

unfoldable pub sanitize_file_name : (ℕ → Bool) → Text → Option Text
unfolding is_alphanumeric contains
sanitize_file_name alphabet file_name = checked_name (retain (is_kept alphabet) file_name)

-- `Path::join`: an absolute path replaces the base.
unfoldable pub join : Text → Text → Text
unfolding has_prefix
join base path =
    if has_prefix (b'/' ∷ []) path
    then path
    else if has_prefix (b'/' ∷ []) (drop (length base - 1) base)
    then base ++ path
    else base ++ (b'/' ∷ path)

-- The components of an absolute path: empty ones and single dots are not.
abbrev pub is_component : Text → Bool
is_component part = not (is_empty part) && not (list_eq part (b'.' ∷ []))

unfoldable pub components : Text → List Text
unfolding split
components path = retain is_component (split b'/' path)

abbrev pub begins : List Text → List Text → Bool
begins [] parts = true
begins (b ∷ base) [] = false
begins (b ∷ base) (p ∷ parts) = list_eq b p && begins base parts

-- `Path::starts_with` on absolute paths.
unfoldable pub path_starts_with : Text → Text → Bool
unfolding components has_prefix
path_starts_with path base =
    has_prefix (b'/' ∷ []) path && begins (components base) (components path)

unfoldable pub validate_script_path : (ℕ → Bool) → Text → Text → Option Text
unfolding sanitize_file_name join path_starts_with
validate_script_path alphabet base_dir file_name = elim (sanitize_file_name alphabet file_name) [
  | none ↦ none
  | some sanitized ↦
      let full_path = join base_dir sanitized in
      if path_starts_with full_path base_dir then some full_path else none
]

-- `ends_with`
abbrev pub ends_with : Text → Text → Bool
ends_with suffix [] = list_eq suffix []
ends_with suffix (c ∷ s) = list_eq suffix (c ∷ s) || ends_with suffix s

pub record RunScriptReq : Type 0 where
  pub name : Text
  pub script_type : String

-- A program and the path it is given.
pub record Started : Type 0 where
  pub program : String
  pub path : Text

-- What the handlers ask of the system: which paths exist, the lower case of a name, the log of a program
-- in the foreground, and whether a file could be removed.
pub record ScriptSystem : Type 0 where
  pub exists : Text → Bool
  pub lowercase : Text → Text
  pub output : Started → Result {0, 0} String String
  pub remove_file : Text → Result {0, 0} String Unit

abbrev pub program_of : ScriptSystem → Text → String
program_of sys name = if ends_with (codes ".py") (sys.lowercase name) then "python" else "sh"

abbrev pub logged : Result {0, 0} String String → ApiResponse {0} String
logged (ok log) = api_ok log
logged (err e) = api_err generic e

abbrev pub run_at :
    ScriptSystem → RunScriptReq → Option Text → ApiResponse {0} String × Option Started
run_at sys req none = (api_err (negsuc 0) "invalid arguments", none)
run_at sys req (some path) =
    let script : Started = record { program = program_of sys req.name; path = path } in
    if not (sys.exists path)
    then (api_err (negsuc 1) "script not found", none)
    else if str_eq req.script_type "foreground"
    then (logged (sys.output script), some script)
    else (api_ok "Started in background", some script)

-- The answer, and the program that was started.
unfoldable pub run_script_handler :
    (ℕ → Bool) → ScriptSystem → RunScriptReq → ApiResponse {0} String × Option Started
unfolding validate_script_path
run_script_handler alphabet sys req =
    run_at sys req (validate_script_path alphabet script_directory req.name)

abbrev pub removed : Result {0, 0} String Unit → ApiResponse {0} Unit
removed (ok u) = api_ok_empty
removed (err e) = api_err generic e

abbrev pub delete_at : ScriptSystem → Option Text → ApiResponse {0} Unit × Option Text
delete_at sys none = (api_err (negsuc 0) "invalid arguments", none)
delete_at sys (some path) = (removed (sys.remove_file path), some path)

-- The answer, and the path that was given to `remove_file`.
unfoldable pub delete_script_handler :
    (ℕ → Bool) → ScriptSystem → Text → ApiResponse {0} Unit × Option Text
unfolding validate_script_path
delete_script_handler alphabet sys name =
    delete_at sys (validate_script_path alphabet script_directory name)

-- `name_lower.ends_with(".sh") || name_lower.ends_with(".py")`
abbrev pub is_script : ScriptSystem → Text → Bool
is_script sys name =
    let name_lower = sys.lowercase name in
    ends_with (codes ".sh") name_lower || ends_with (codes ".py") name_lower

-- The entries of the directory, none when it cannot be read.
unfoldable pub get_scripts_handler : ScriptSystem → Option (List Text) → ApiResponse {0} (List Text)
get_scripts_handler sys entries =
    api_ok (elim entries [ none ↦ [] | some names ↦ retain (is_script sys) names ])

-- A field of the upload: its file name, its content unless reading it fails, and whether the file could
-- be written.
pub record ScriptField : Type 0 where
  pub file_name : Option Text
  pub content : Option Text
  pub is_written : Bool

-- The name of the last file that was written, and the files that were written whole, the latest first.
pub record Uploads : Type 0 where
  pub uploaded_file : Option Text
  pub files : List (Text × Text)

-- `Path::file_name`, or the empty text where a path has none.
abbrev pub last_or_empty : List Text → Text
last_or_empty [] = []
last_or_empty (part ∷ []) = if list_eq part (codes "..") then [] else part
last_or_empty (part ∷ next ∷ parts) = last_or_empty (next ∷ parts)

abbrev pub written_to : Text → Text → Uploads → Uploads
written_to path content u = record {
  uploaded_file = some (last_or_empty (components path));
  files = (path, content) ∷ u.files;
}

abbrev pub store_at : Bool → Option Text → Option Text → Uploads → Uploads
store_at is_written none content u = u
store_at is_written (some path) none u = u
store_at is_written (some path) (some content) u =
    if is_written then written_to path content u else u

abbrev pub store_named : (ℕ → Bool) → ScriptSystem → ScriptField → Option Text → Uploads → Uploads
store_named alphabet sys field none u = u
store_named alphabet sys field (some name) u =
    if is_script sys name
    then store_at field.is_written (validate_script_path alphabet script_directory name)
        field.content u
    else u

abbrev pub store_all : (ℕ → Bool) → ScriptSystem → List ScriptField → Uploads → Uploads
store_all alphabet sys [] u = u
store_all alphabet sys (field ∷ fields) u =
    store_all alphabet sys fields (store_named alphabet sys field field.file_name u)

abbrev pub uploaded : Uploads → ApiResponse {0} Text
uploaded u = elim u.uploaded_file [
  | none ↦ api_err (negsuc 0) "no file uploaded"
  | some file ↦ api_ok file
]

-- The answer, and the files that were written.
unfoldable pub upload_script_handler :
    (ℕ → Bool) → ScriptSystem → List ScriptField → ApiResponse {0} Text × List (Text × Text)
unfolding validate_script_path components
upload_script_handler alphabet sys fields =
    let u = store_all alphabet sys fields (record { uploaded_file = none; files = [] }) in
    (uploaded u, u.files)
