-- ===== src/Network/Wifi.antt =====
-- network/src/lib.rs: joining a Wi-Fi network. The connection script runs outside: what it leaves in the
-- state file at each second is a parameter, as are the outcomes of the files.
pub mod Waiting
use rustykvm.Prelude.{
  ℕ, zero, suc, ◌+◌, ◌-◌, ◌*◌, ◌/◌, ◌%◌, ◌^◌, ◌≤◌, ◌<◌, min, String, ◌≡◌, refl, sym, ap, ◌∙◌, ◌≢◌,
  ◌↔◌, ◌⊎◌, inl, inr, Bool, true, false, not, ◌&&◌, ◌||◌, Option, none, some, List, [], ◌∷◌, ◌++◌,
  map, arith, eq_iff, str_eq, ltb, leb, ◌==◌, if◌then◌else◌, ltb→lt, lt→ltb, ltb_of_le, leb→le,
  ==_iff, tests, Bool-cases, Option-cases, is_some_and, length, get_elem?, get_elem?-of_lt, get_or,
  take, drop, replicate, any, all, retain, All, sum, sum-append, list_eq, list_eq→eq, list_eq_refl,
  length-append, length-take, length-drop, take-append-drop, length-retain-le,
}
use rustykvm.Prelude.Result.{Result, ok, err}
use rustykvm.Prelude.Text.{Text, trim}
use rustykvm.Network.Error.{NetworkError, io, command_failed, Write, written, failed, write}

-- The files of the device: the network's name and password, and the wish to connect.
pub record WifiFiles : Type 0 where
  pub ssid : Option Text
  pub passwd : Option Text
  pub connect : Option Text

pub record WifiWrites : Type 0 where
  pub ssid : Write
  pub passwd : Write
  pub connect : Write

-- `is_wifi_connected`; `none` when the state file is not read.
unfoldable pub is_wifi_connected : Option Text → Bool
unfolding trim
is_wifi_connected none = false
is_wifi_connected (some content) = list_eq (trim content) (b'1' ∷ [])

-- `get_wifi_ssid`
unfoldable pub get_wifi_ssid : Option Text → Option Text
unfolding trim
get_wifi_ssid none = none
get_wifi_ssid (some content) = some (trim content)

-- Up to `rounds` more seconds; `state i` is the state file after second `i`.
unfoldable pub wait_connected : (ℕ → Option Text) → ℕ → ℕ → Result {0, 0} NetworkError Unit
unfolding is_wifi_connected
wait_connected state i zero = err (command_failed "Connection timed out")
wait_connected state i (suc rounds) =
    let rest = wait_connected state (i + 1) rounds in
    if is_wifi_connected (state i) then ok tt else rest

-- A write's result before what follows it.
abbrev pub after :
    Result {0, 0} NetworkError Unit × Option Text
    → (Option Text → WifiFiles)
    → (WifiFiles → Result {0, 0} NetworkError Unit × WifiFiles)
    → Result {0, 0} NetworkError Unit × WifiFiles
after (err e, file) put rest = (err e, put file)
after (ok u, file) put rest = rest (put file)

unfoldable pub connect_wifi :
    WifiWrites
    → (ℕ → Option Text)
    → Text
    → Text
    → WifiFiles
    → Result {0, 0} NetworkError Unit × WifiFiles
unfolding wait_connected
connect_wifi w state ssid password f =
    after (write w.ssid ssid) (λ t. record { ssid = t; passwd = f.passwd; connect = f.connect })
      (λ f.
        after (write w.passwd password)
          (λ t. record { ssid = f.ssid; passwd = t; connect = f.connect })
          (λ f.
            after (write w.connect [])
              (λ t. record { ssid = f.ssid; passwd = f.passwd; connect = t })
              (λ f. (wait_connected state 0 30, f))))

-- `disconnect_wifi`: what the script answers, and whether each file is then removed.
pub data Script : Type 0 where
  not_started : String → Script
  unsuccessful : String → Script
  success : Script

unfoldable pub disconnect_wifi :
    Script → Bool → Bool → WifiFiles → Result {0, 0} NetworkError Unit × WifiFiles
disconnect_wifi (not_started e) ssid_removed passwd_removed f = (err (io e), f)
disconnect_wifi (unsuccessful err_msg) ssid_removed passwd_removed f =
    (err (command_failed err_msg), f)
disconnect_wifi success ssid_removed passwd_removed f = (
  ok tt,
  record {
    ssid = if ssid_removed then none else f.ssid;
    passwd = if passwd_removed then none else f.passwd;
    connect = f.connect;
  },
)
