-- ===== src/Hid/MouseScroll.antt =====
-- server/src/hid/mouse_scroll.rs: the scroll profile. serde_json's readers are parameters.
pub mod Valid
use rustykvm.Prelude.{
  ℕ, zero, suc, ◌+◌, ◌-◌, ◌*◌, ◌/◌, ◌%◌, ◌^◌, ◌≤◌, ◌<◌, min, String, ◌≡◌, refl, sym, ap, ◌∙◌, ◌≢◌,
  ◌↔◌, ◌⊎◌, inl, inr, Bool, true, false, not, ◌&&◌, ◌||◌, Option, none, some, List, [], ◌∷◌, ◌++◌,
  map, arith, eq_iff, str_eq, ltb, leb, ◌==◌, if◌then◌else◌, ltb→lt, lt→ltb, ltb_of_le, leb→le,
  ==_iff, tests, Bool-cases, Option-cases, is_some_and, length, get_elem?, get_elem?-of_lt, get_or,
  take, drop, replicate, any, all, retain, All, sum, sum-append, list_eq, list_eq→eq, list_eq_refl,
  length-append, length-take, length-drop, take-append-drop, length-retain-le,
}
use rustykvm.Prelude.Int.{ℤ, pos, negsuc, int_eq}
use rustykvm.Prelude.Result.{Result, ok, err}
use rustykvm.Prelude.Text.{Text, trim}
use rustykvm.Api.{ApiResponse, api_ok, api_err}
use rustykvm.Api.ErrorCodes

pub record MouseScrollConfig : Type 0 where
  pub direction : ℤ
  pub interval : ℕ

abbrev pub default : MouseScrollConfig
default = record { direction = negsuc 0; interval = 0 }

pub record MouseScrollStoreFile : Type 0 where
  pub version : ℕ
  pub config : MouseScrollConfig

abbrev pub current_version : ℕ
current_version = 1

-- The file's text as the two readers take it, with the version and bare.
pub record ScrollLibrary : Type 0 where
  pub from_str : Text → Option MouseScrollStoreFile
  pub from_bare_str : Text → Option MouseScrollConfig
  pub to_string : MouseScrollStoreFile → Option Text

-- The profile in memory and the file.
pub record MouseScrollStore : Type 0 where
  pub config : MouseScrollConfig
  pub file : Option Text

unfoldable pub validate : MouseScrollConfig → Result {0, 0} String Unit
validate cfg =
    if not (int_eq cfg.direction (pos 1)) && not (int_eq cfg.direction (negsuc 0))
    then err "direction must be 1 or -1"
    else if ltb 2000 cfg.interval
    then err "interval must be between 0 and 2000 (ms)"
    else ok tt

abbrev pub taken :
    MouseScrollConfig → MouseScrollConfig → Result {0, 0} String Unit → MouseScrollConfig
taken old cfg (ok u) = cfg
taken old cfg (err e) = old

abbrev pub bare_or : MouseScrollConfig → Option MouseScrollConfig → MouseScrollConfig
bare_or old none = old
bare_or old (some cfg) = taken old cfg (validate cfg)

abbrev pub stored_or :
    MouseScrollConfig → Option MouseScrollConfig → Option MouseScrollStoreFile → MouseScrollConfig
stored_or old bare none = bare_or old bare
stored_or old bare (some stored) = taken old stored.config (validate stored.config)

abbrev pub is_blank : Text → Bool
is_blank [] = true
is_blank (c ∷ s) = false

-- The start: the defaults, and what the file says if it is read.
unfoldable pub load_from_disk : ScrollLibrary → Option Text → MouseScrollConfig → MouseScrollConfig
unfolding validate trim
load_from_disk lib none old = old
load_from_disk lib (some content) old =
    if is_blank (trim content)
    then old
    else stored_or old (lib.from_bare_str content) (lib.from_str content)

unfoldable pub new : ScrollLibrary → Option Text → MouseScrollStore
unfolding load_from_disk
new lib file = record { config = load_from_disk lib file default; file = file }

-- Whether the file is written, made private and renamed; only then does it change.
abbrev pub save_to_disk : Bool → Option Text → Option Text → Bool × Option Text
save_to_disk is_written none old = (false, old)
save_to_disk is_written (some json) old =
    if is_written then (true, some (json ++ 10 ∷ [])) else (false, old)

abbrev pub save_answer : MouseScrollConfig → Bool → Result {0, 0} (ℤ × String) MouseScrollConfig
save_answer cfg true = ok cfg
save_answer cfg false =
    err (ErrorCodes.generic, "profile updated in memory but failed to persist to disk")

abbrev pub apply_checked :
    ScrollLibrary
    → Bool
    → MouseScrollConfig
    → MouseScrollStore
    → Result {0, 0} String Unit
    → Result {0, 0} (ℤ × String) MouseScrollConfig × MouseScrollStore
apply_checked lib is_written cfg s (err msg) = (err (ErrorCodes.validation, msg), s)
apply_checked lib is_written cfg s (ok u) =
    let (is_saved, file) =
      save_to_disk is_written (lib.to_string (record { version = current_version; config = cfg }))
        s.file in
    (save_answer cfg is_saved, record { config = cfg; file = file })

unfoldable pub set :
    ScrollLibrary
    → Bool
    → MouseScrollConfig
    → MouseScrollStore
    → Result {0, 0} (ℤ × String) MouseScrollConfig × MouseScrollStore
unfolding validate
set lib is_written cfg s = apply_checked lib is_written cfg s (validate cfg)

pub record GetMouseScrollRsp : Type 0 where
  pub direction : ℤ
  pub interval : ℕ
  pub source : String

abbrev pub response_of : MouseScrollConfig → GetMouseScrollRsp
response_of cfg = record { direction = cfg.direction; interval = cfg.interval; source = "server" }

unfoldable pub get_mouse_scroll_handler : MouseScrollStore → ApiResponse GetMouseScrollRsp
get_mouse_scroll_handler s = api_ok (response_of s.config)

abbrev pub set_answer : Result {0, 0} (ℤ × String) MouseScrollConfig → ApiResponse GetMouseScrollRsp
set_answer (ok stored) = api_ok (response_of stored)
set_answer (err e) = api_err e.0 e.1

unfoldable pub set_mouse_scroll_handler :
    ScrollLibrary
    → Bool
    → MouseScrollConfig
    → MouseScrollStore
    → ApiResponse GetMouseScrollRsp × MouseScrollStore
unfolding set
set_mouse_scroll_handler lib is_written req s =
    let (r, next) = set lib is_written req s in (set_answer r, next)
