-- ===== src/Network/Handlers.antt =====
-- server/src/network.rs: the handlers of Wake-on-LAN and Wi-Fi, over the operations of the crate.
use rustykvm.Prelude.{
  ℕ, String, Bool, true, false, not, Option, none, some, List, [], ◌∷◌, ◌++◌, map, if◌then◌else◌,
}
use rustykvm.Prelude.Int.{negsuc}
use rustykvm.Prelude.Result.{Result, ok, err}
use rustykvm.Prelude.Text.{Text, codes}
use rustykvm.Api.{ApiResponse, api_ok, api_ok_empty, api_err}
use rustykvm.Api.ErrorCodes
use rustykvm.Network.Error.{NetworkError, io, invalid_mac, command_failed, to_string}
use rustykvm.Network.Wol.{
  WolEntry, WolFile, WolIo, is_empty, get_wol_macs, set_wol_mac_name, delete_wol_mac, Command,
  wake_on_lan,
}
use rustykvm.Network.Wifi.{
  WifiFiles, WifiWrites, Script, is_wifi_connected, get_wifi_ssid, connect_wifi, disconnect_wifi,
}

-- The empty answer, or the error by `answer`.
abbrev pub answer_by :
    (NetworkError → ApiResponse {0} Unit) → Result {0, 0} NetworkError Unit → ApiResponse {0} Unit
answer_by answer (ok u) = api_ok_empty
answer_by answer (err e) = answer e

abbrev pub generic_error : NetworkError → ApiResponse {0} Unit
generic_error e = api_err ErrorCodes.generic (to_string e)

abbrev pub wol_error : NetworkError → ApiResponse {0} Unit
wol_error (invalid_mac mac) = api_err (negsuc 1) "invalid MAC address"
wol_error (command_failed msg) = api_err ErrorCodes.validation msg
wol_error (io e) = generic_error (io e)

unfoldable pub wol_handler :
    WolIo
    → (ℕ → Text)
    → (ℕ → Bool)
    → (Text → Command)
    → String
    → WolFile
    → ApiResponse {0} Unit × WolFile
unfolding wake_on_lan
wol_handler o tables is_alphanumeric ether_wake mac file =
    let (r, next) = wake_on_lan o tables is_alphanumeric ether_wake mac file in
    (answer_by wol_error r, next)

abbrev pub entry_text : WolEntry → Text
entry_text e = if is_empty e.name then e.mac else e.mac ++ (b' ' ∷ e.name)

abbrev pub macs_answer : Result NetworkError (List WolEntry) → ApiResponse (List Text)
macs_answer (ok entries) = api_ok (map entry_text entries)
macs_answer (err e) = api_err ErrorCodes.generic (to_string e)

unfoldable pub get_wol_macs_handler : WolIo → WolFile → ApiResponse (List Text)
unfolding get_wol_macs
get_wol_macs_handler o file = macs_answer (get_wol_macs o file)

abbrev pub name_error : NetworkError → ApiResponse {0} Unit
name_error (invalid_mac msg) = api_err ErrorCodes.validation msg
name_error (command_failed msg) = generic_error (command_failed msg)
name_error (io e) = generic_error (io e)

unfoldable pub set_wol_name_handler :
    WolIo → String → String → WolFile → ApiResponse {0} Unit × WolFile
unfolding set_wol_mac_name
set_wol_name_handler o mac name file =
    let (r, next) = set_wol_mac_name o mac name file in (answer_by name_error r, next)

unfoldable pub delete_wol_mac_handler : WolIo → String → WolFile → ApiResponse {0} Unit × WolFile
unfolding delete_wol_mac
delete_wol_mac_handler o mac file =
    let (r, next) = delete_wol_mac o mac file in (answer_by generic_error r, next)

pub record GetWifiRsp : Type 0 where
  pub supported : Bool
  pub connected : Bool
  pub ssid : Text
  pub ap_mode : Bool

abbrev pub or_wifi : Option Text → Text
or_wifi none = codes "Wi-Fi"
or_wifi (some ssid) = ssid

-- What the files say: whether the adapter's and the access point's exist, and what the others hold.
unfoldable pub get_wifi_handler : Bool → Bool → Option Text → Option Text → ApiResponse GetWifiRsp
unfolding is_wifi_connected get_wifi_ssid
get_wifi_handler supported ap_mode state ssid = api_ok (
    if supported
    then record {
      supported = true;
      connected = is_wifi_connected state;
      ssid = if is_wifi_connected state then or_wifi (get_wifi_ssid ssid) else [];
      ap_mode = ap_mode;
    }
    else record { supported = false; connected = false; ssid = []; ap_mode = false })

unfoldable pub connect_wifi_handler :
    WifiWrites → (ℕ → Option Text) → Text → Text → WifiFiles → ApiResponse {0} Unit × WifiFiles
unfolding connect_wifi
connect_wifi_handler w state ssid password f =
    let (r, next) = connect_wifi w state ssid password f in (answer_by generic_error r, next)

unfoldable pub disconnect_wifi_handler :
    Script → Bool → Bool → WifiFiles → ApiResponse {0} Unit × WifiFiles
unfolding disconnect_wifi
disconnect_wifi_handler script ssid_removed passwd_removed f =
    let (r, next) = disconnect_wifi script ssid_removed passwd_removed f in
    (answer_by generic_error r, next)

unfoldable pub connect_wifi_no_auth_handler :
    Bool
    → WifiWrites
    → (ℕ → Option Text)
    → Text
    → Text
    → WifiFiles
    → ApiResponse {0} Unit × WifiFiles
unfolding connect_wifi_handler
connect_wifi_no_auth_handler ap_mode w state ssid password f =
    if not ap_mode
    then (api_err (negsuc 0) "wifi no-auth connect only allowed in ap mode", f)
    else connect_wifi_handler w state ssid password f
