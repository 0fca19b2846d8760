-- ===== src/Vm/Hostname.antt =====
-- server/src/vm.rs: the name of the device on the network, in /etc/hostname, /boot/hostname and /etc/hosts.
pub mod Applied
use rustykvm.Prelude.{
  ℕ, zero, suc, ◌+◌, ◌-◌, ◌*◌, ◌/◌, ◌%◌, ◌^◌, ◌≤◌, ◌<◌, min, String, ◌≡◌, refl, sym, ap, ◌∙◌, ◌≢◌,
  ◌↔◌, ◌⊎◌, inl, inr, Bool, true, false, not, ◌&&◌, ◌||◌, Option, none, some, List, [], ◌∷◌, ◌++◌,
  map, arith, eq_iff, str_eq, ltb, leb, ◌==◌, if◌then◌else◌, ltb→lt, lt→ltb, ltb_of_le, leb→le,
  ==_iff, tests, Bool-cases, Option-cases, is_some_and, length, get_elem?, get_elem?-of_lt, get_or,
  take, drop, replicate, any, all, retain, All, sum, sum-append, list_eq, list_eq→eq, list_eq_refl,
  length-append, length-take, length-drop, take-append-drop, length-retain-le,
}
use rustykvm.Prelude.Int.{negsuc}
use rustykvm.Prelude.Result.{FileWrite, written_file}
use rustykvm.Prelude.Text.{Text, codes, trim, has_prefix}
use rustykvm.Api.{ApiResponse, api_ok, api_ok_empty, api_err}
use rustykvm.Vm.Scripts.{is_alphanumeric, is_empty, ends_with}

-- `String::len`: bytes of UTF-8.
abbrev pub utf8_width : ℕ → ℕ
utf8_width c = if ltb c 0x80 then 1 else if ltb c 0x800 then 2 else if ltb c 0x10000 then 3 else 4

abbrev pub byte_length : Text → ℕ
byte_length [] = 0
byte_length (c ∷ s) = utf8_width c + byte_length s

abbrev pub is_host_char : (ℕ → Bool) → ℕ → Bool
is_host_char alphabet c = is_alphanumeric alphabet c || c == b'-' || c == b'.'

unfoldable pub validate_hostname : (ℕ → Bool) → Text → Bool
unfolding is_alphanumeric has_prefix
validate_hostname alphabet hostname =
    if is_empty hostname || ltb 63 (byte_length hostname)
    then false
    else if has_prefix (b'.' ∷ []) hostname || ends_with (b'.' ∷ []) hostname
    then false
    else all (is_host_char alphabet) hostname

-- `str::replace`: `skipped` characters of a match are left; an empty pattern is found before every
-- character and at the end.
abbrev pub replace_from : Text → Text → ℕ → Text → Text
replace_from pattern by skipped [] = if is_empty pattern then by else []
replace_from pattern by (suc skipped) (c ∷ s) = replace_from pattern by skipped s
replace_from pattern by zero (c ∷ s) = elim (has_prefix pattern (c ∷ s)) [
  | true ↦
      if is_empty pattern
      then by ++ (c ∷ replace_from pattern by 0 s)
      else by ++ replace_from pattern by (length pattern - 1) s
  | false ↦ c ∷ replace_from pattern by 0 s
]

unfoldable pub replace : Text → Text → Text → Text
unfolding has_prefix
replace pattern by s = replace_from pattern by 0 s

-- The three files, none where one cannot be read, and the name that the system has.
pub record HostFiles : Type 0 where
  pub etc_hostname : Option Text
  pub boot_hostname : Option Text
  pub etc_hosts : Option Text
  pub system_name : Text

-- The writes, and whether the `hostname` command takes place.
pub record HostIo : Type 0 where
  pub hosts : FileWrite Text
  pub etc : FileWrite Text
  pub boot : FileWrite Text
  pub is_set : Bool

abbrev pub new_hosts : HostIo → Text → Option Text → Option Text → Option Text
new_hosts io hostname none hosts = hosts
new_hosts io hostname (some old) none = none
new_hosts io hostname (some old) (some content) =
    if list_eq (trim old) hostname
    then some content
    else written_file io.hosts (replace (trim old) hostname content)

abbrev pub apply_hostname : HostIo → Text → HostFiles → HostFiles
apply_hostname io hostname f = record {
  etc_hostname = written_file io.etc hostname;
  boot_hostname = written_file io.boot hostname;
  etc_hosts = new_hosts io hostname f.etc_hostname f.etc_hosts;
  system_name = if io.is_set then hostname else f.system_name;
}

-- The restart of mDNS is not modelled.
unfoldable pub set_hostname_handler :
    (ℕ → Bool) → HostIo → Text → HostFiles → ApiResponse {0} Unit × HostFiles
unfolding validate_hostname trim replace
set_hostname_handler alphabet io requested f =
    let hostname = trim requested in
    if validate_hostname alphabet hostname
    then (api_ok_empty, apply_hostname io hostname f)
    else (api_err (negsuc 0) "invalid hostname", f)

abbrev pub or_empty : Option Text → Text
or_empty none = []
or_empty (some content) = content

unfoldable pub get_hostname_handler : HostFiles → ApiResponse {0} Text
unfolding trim
get_hostname_handler f = api_ok (trim (or_empty f.etc_hostname))
