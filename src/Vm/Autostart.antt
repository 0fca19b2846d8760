-- ===== src/Vm/Autostart.antt =====
-- server/src/vm.rs: the files that are run when the device starts. A name is the request's path segment
-- after its percent signs are decoded; files are texts by their paths.
pub mod Escape
use rustykvm.Prelude.{
  ℕ, zero, suc, ◌+◌, ◌-◌, ◌*◌, ◌/◌, ◌%◌, ◌^◌, ◌≤◌, ◌<◌, min, String, ◌≡◌, refl, sym, ap, ◌∙◌, ◌≢◌,
  ◌↔◌, ◌⊎◌, inl, inr, Bool, true, false, not, ◌&&◌, ◌||◌, Option, none, some, List, [], ◌∷◌, ◌++◌,
  map, arith, eq_iff, str_eq, ltb, leb, ◌==◌, if◌then◌else◌, ltb→lt, lt→ltb, ltb_of_le, leb→le,
  ==_iff, tests, Bool-cases, Option-cases, is_some_and, length, get_elem?, get_elem?-of_lt, get_or,
  take, drop, replicate, any, all, retain, All, sum, sum-append, list_eq, list_eq→eq, list_eq_refl,
  length-append, length-take, length-drop, take-append-drop, length-retain-le,
}
use rustykvm.Prelude.Int.{negsuc}
use rustykvm.Prelude.Result.{Result, ok, err}
use rustykvm.Prelude.Text.{Text, codes}
use rustykvm.Api.{ApiResponse, api_ok, api_ok_empty, api_err}
use rustykvm.Api.ErrorCodes.{generic}
use rustykvm.Vm.Scripts.{join, components, last_or_empty}

abbrev pub autostart_directory : Text
autostart_directory = codes "/etc/kvm/autostart"

abbrev pub Files : Type 0
Files = Text → Option Text

-- The files with one written, or removed.
abbrev pub with_file : Text → Option Text → Files → Files
with_file path content files other = if list_eq other path then content else files other

-- The entries of the directory, none when it cannot be read.
unfoldable pub get_autostart_handler : Option (List Text) → ApiResponse {0} (List Text)
get_autostart_handler entries = api_ok (elim entries [ none ↦ [] | some names ↦ names ])

abbrev pub content_of : Option Text → ApiResponse {0} Text
content_of none = api_err generic "failed to read autostart file"
content_of (some content) = api_ok content

unfoldable pub get_autostart_content_handler : Text → Files → ApiResponse {0} Text
unfolding join
get_autostart_content_handler name files = content_of (files (join autostart_directory name))

abbrev pub write_at :
    Text → Text → Option (String × Option Text) → Files → ApiResponse {0} Text × Files
write_at path content (some (e, left)) files = (api_err generic e, with_file path left files)
write_at path content none files =
    (api_ok (last_or_empty (components path)), with_file path (some content) files)

-- With the outcome of the write, none for success, or the error with what the file is left with.
unfoldable pub upload_autostart_handler :
    Option (String × Option Text) → Text → Text → Files → ApiResponse {0} Text × Files
unfolding join components
upload_autostart_handler outcome name content files =
    write_at (join autostart_directory name) content outcome files

-- Removing takes a file that exists, and may fail.
abbrev pub remove_at : Bool → Text → Option Text → Files → ApiResponse {0} Unit × Files
remove_at is_removed path none files = (api_err (negsuc 0) "remove file fail", files)
remove_at true path (some content) files = (api_ok_empty, with_file path none files)
remove_at false path (some content) files = (api_err (negsuc 0) "remove file fail", files)

unfoldable pub delete_autostart_handler : Bool → Text → Files → ApiResponse {0} Unit × Files
unfolding join
delete_autostart_handler is_removed name files =
    let path = join autostart_directory name in remove_at is_removed path (files path) files
