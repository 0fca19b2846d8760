-- ===== src/Vm/Info.antt =====
-- server/src/vm.rs: what the device tells of itself, the OLED's sleep, and the jiggler's two handlers.
-- Files are texts, none where one cannot be read.
use rustykvm.Prelude.{
  ◌-◌, ◌^◌, String, ◌≡◌, refl, Bool, true, false, not, ◌||◌, Option, none, some, List, [], ◌∷◌,
  ◌++◌, ◌==◌, if◌then◌else◌,
}
use rustykvm.Prelude.Int.{ℤ, pos}
use rustykvm.Prelude.Result.{FileWrite, complete, broken}
use rustykvm.Prelude.Text.{Text, codes, trim, has_prefix, parse_unsigned, push_digits}
use rustykvm.Api.{ApiResponse, api_ok, api_ok_empty, api_err}
use rustykvm.Api.ErrorCodes.{generic}
use rustykvm.Vm.Scripts.{is_empty}
use rustykvm.Vm.Settings.{negated}
use rustykvm.Vm.Screen.{print_i32}
use rustykvm.Vm.Gpio.{HardwareVersion, HardwareConfig}
use rustykvm.Hid.Jiggler.{MouseJiggler, is_enabled, get_mode, enable, disable}

-- A network interface with its address as text, for IPv4 or not.
pub record Iface : Type 0 where
  pub name : Text
  pub is_loopback : Bool
  pub is_v4 : Bool
  pub addr : Text

pub record Ip : Type 0 where
  pub name : Text
  pub addr : Text
  pub version : String
  pub ip_type : String

abbrev pub type_of : Text → Option String
type_of name =
    if has_prefix (codes "eth") name || has_prefix (codes "en") name
    then some "Wired"
    else if has_prefix (codes "wlan") name || has_prefix (codes "wl") name
    then some "Wireless"
    else none

abbrev pub entry_of : Iface → Option String → List Ip → List Ip
entry_of iface none ips = ips
entry_of iface (some ip_type) ips =
    if iface.is_v4
    then record { name = iface.name; addr = iface.addr; version = "IPv4"; ip_type = ip_type } ∷ ips
    else ips

abbrev pub ips_of : List Iface → List Ip
ips_of [] = []
ips_of (iface ∷ ifaces) =
    let ips = ips_of ifaces in
    if not iface.is_loopback then entry_of iface (type_of iface.name) ips else ips

-- The four files that are read.
pub record InfoFiles : Type 0 where
  pub hostname : Option Text
  pub image : Option Text
  pub application : Option Text
  pub device_key : Option Text

pub record GetInfoRsp : Type 0 where
  pub ips : List Ip
  pub mdns : Text
  pub image : Text
  pub application : Text
  pub device_key : Text

abbrev pub trimmed_or : Text → Option Text → Text
trimmed_or missing none = trim missing
trimmed_or missing (some content) = trim content

-- With the interfaces, or none where they cannot be listed.
unfoldable pub get_info_handler : Option (List Iface) → InfoFiles → ApiResponse {0} GetInfoRsp
unfolding trim has_prefix
get_info_handler ifaces f =
    let hostname = trimmed_or [] f.hostname in
    api_ok (record {
      ips = elim ifaces [ none ↦ [] | some all_of ↦ ips_of all_of ];
      mdns = if not (is_empty hostname) then hostname ++ codes ".local" else [];
      image = trimmed_or [] f.image;
      application = trimmed_or (codes "1.0.0") f.application;
      device_key = trimmed_or [] f.device_key;
    })

abbrev pub version_name : HardwareVersion → String
version_name HardwareVersion.alpha = "Alpha"
version_name HardwareVersion.beta = "Beta"
version_name HardwareVersion.pcie = "PCIE"

unfoldable pub get_hardware_handler : HardwareConfig → ApiResponse {0} String
get_hardware_handler config = api_ok (version_name config.version)

-- `parse::<i32>()`
unfoldable pub parse_i32 : Text → Option ℤ
unfolding parse_unsigned push_digits
parse_i32 [] = none
parse_i32 (c ∷ []) = elim (parse_unsigned (2 ^ 31 - 1) (c ∷ [])) [
  | none ↦ none
  | some n ↦ some (pos n)
]
parse_i32 (c ∷ d ∷ s) =
    if c == b'-'
    then elim (push_digits (2 ^ 31) 0 (d ∷ s)) [ none ↦ none | some n ↦ some (negated n) ]
    else elim (parse_unsigned (2 ^ 31 - 1) (c ∷ d ∷ s)) [ none ↦ none | some n ↦ some (pos n) ]

abbrev pub or_zero : Option ℤ → ℤ
or_zero none = pos 0
or_zero (some n) = n

-- Whether there is an OLED, and the time until it sleeps.
unfoldable pub get_oled_handler : Bool → Option Text → ApiResponse {0} (Bool × ℤ)
unfolding parse_i32 trim
get_oled_handler exist none = api_ok (exist, pos 0)
get_oled_handler exist (some content) =
    api_ok (exist, if exist then or_zero (parse_i32 (trim content)) else pos 0)

-- With the outcome of the write, none for success, or the error with what the file is left with.
abbrev pub oled_written : Option (String × Option Text) → ℤ → ApiResponse {0} Unit × Option Text
oled_written none sleep = (api_ok_empty, some (print_i32 sleep))
oled_written (some (e, left)) sleep = (api_err generic e, left)

unfoldable pub set_oled_handler :
    Option (String × Option Text) → ℤ → ApiResponse {0} Unit × Option Text
unfolding print_i32
set_oled_handler outcome sleep = oled_written outcome sleep

unfoldable pub get_jiggler_handler : MouseJiggler → ApiResponse {0} (Bool × Text)
unfolding is_enabled get_mode
get_jiggler_handler j = api_ok (is_enabled j, get_mode j)

abbrev pub mode_or_relative : Option Text → Text
mode_or_relative none = codes "relative"
mode_or_relative (some mode) = mode

abbrev pub enabled_answer : String → FileWrite Text → ApiResponse {0} Unit
enabled_answer e complete = api_ok_empty
enabled_answer e (broken left) = api_err generic e

-- With the write of the jiggler's file and the text of its error, and whether the file is removed; a
-- failure to remove it is not reported.
unfoldable pub set_jiggler_handler :
    String
    → FileWrite Text
    → Bool
    → Bool
    → Option Text
    → MouseJiggler
    → ApiResponse {0} Unit × MouseJiggler
unfolding enable disable
set_jiggler_handler e w is_removed true mode j =
    (enabled_answer e w, enable w (mode_or_relative mode) j)
set_jiggler_handler e w is_removed false mode j = (api_ok_empty, disable is_removed j)

-- What is shown after a request whose file is written or removed: the mode is the one of the request without the white space
-- around it, and relative where the jiggler is off.
pub get_jiggler-set_jiggler :
    (e : String) (enabled : Bool) (mode : Option Text) (j : MouseJiggler)
    → get_jiggler_handler (set_jiggler_handler e complete true enabled mode j).1
      ≡ api_ok (enabled, if enabled then trim (mode_or_relative mode) else codes "relative")
unfolding get_jiggler_handler set_jiggler_handler is_enabled get_mode
get_jiggler-set_jiggler e true mode j = refl
get_jiggler-set_jiggler e false mode j = refl
