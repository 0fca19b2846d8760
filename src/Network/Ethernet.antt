-- ===== src/Network/Ethernet.antt =====
-- network/src/lib.rs: the configuration of the wired network. The file of static addresses
-- (`ETH_NODHCP_FILE`), of name servers and of the saved configuration are the state; serde_yaml and the
-- standard library's parser of IP addresses are parameters, and the restart of the service is left out.
pub mod Saved
pub mod Current
use rustykvm.Prelude.{
  ℕ, zero, suc, ◌+◌, ◌-◌, ◌*◌, ◌/◌, ◌%◌, ◌^◌, ◌≤◌, ◌<◌, min, String, ◌≡◌, refl, sym, ap, ◌∙◌, ◌≢◌,
  ◌↔◌, ◌⊎◌, inl, inr, Bool, true, false, not, ◌&&◌, ◌||◌, Option, none, some, List, [], ◌∷◌, ◌++◌,
  map, arith, eq_iff, str_eq, ltb, leb, ◌==◌, if◌then◌else◌, ltb→lt, lt→ltb, ltb_of_le, leb→le,
  ==_iff, tests, Bool-cases, Option-cases, is_some_and, length, get_elem?, get_elem?-of_lt, get_or,
  take, drop, replicate, any, all, retain, All, sum, sum-append, list_eq, list_eq→eq, list_eq_refl,
  length-append, length-take, length-drop, take-append-drop, length-retain-le,
}
use rustykvm.Prelude.Result.{Result, ok, err}
use rustykvm.Prelude.Text.{Text, codes, print_short}
use rustykvm.Network.Error.{NetworkError, io, command_failed, Write, written, failed, write}
use rustykvm.Network.Netmask.{is_valid_netmask, netmask_to_cidr}

pub record EthernetConfig : Type 0 where
  pub dhcp : Bool
  pub ip : Option Text
  pub netmask : Option Text
  pub gateway : Option Text
  pub dns1 : Option Text
  pub dns2 : Option Text

-- `SetEthernetConfigReq` has the same fields.
abbrev pub SetEthernetConfigReq : Type 0
SetEthernetConfigReq = EthernetConfig

pub record EthernetFiles : Type 0 where
  pub nodhcp : Option Text
  pub resolv_conf : Option Text
  pub config : Option Text

pub record EthernetWrites : Type 0 where
  pub nodhcp_removed : Bool
  pub nodhcp : Write
  pub resolv_conf : Write
  pub create_dir : Option String
  pub config : Write

pub record EthernetLibrary : Type 0 where
  pub is_valid_ip : Text → Bool
  pub to_yaml : EthernetConfig → Result {0, 0} String Text
  pub from_yaml : Text → Option EthernetConfig

abbrev pub dhcp_config : Bool → EthernetConfig
dhcp_config dhcp = record {
  dhcp = dhcp;
  ip = none;
  netmask = none;
  gateway = none;
  dns1 = none;
  dns2 = none;
}

abbrev pub or_dhcp : Option EthernetConfig → EthernetConfig
or_dhcp none = dhcp_config true
or_dhcp (some config) = config

abbrev pub is_none : Option Text → Bool
is_none none = true
is_none (some t) = false

-- `ok_or_else`
abbrev pub required : String → Option Text → Result {0, 0} NetworkError Text
required msg none = err (command_failed msg)
required msg (some t) = ok t

-- The step of a file on the whole state, and what follows if it succeeds.
abbrev pub then_files :
    Result {0, 0} NetworkError Unit × EthernetFiles
    → (EthernetFiles → Result {0, 0} NetworkError Unit × EthernetFiles)
    → Result {0, 0} NetworkError Unit × EthernetFiles
then_files (err e, f) rest = (err e, f)
then_files (ok u, f) rest = rest f

abbrev pub put_nodhcp :
    EthernetFiles
    → Result {0, 0} NetworkError Unit × Option Text
    → Result {0, 0} NetworkError Unit × EthernetFiles
put_nodhcp f (r, t) = (r, record { nodhcp = t; resolv_conf = f.resolv_conf; config = f.config })

abbrev pub put_resolv_conf :
    EthernetFiles
    → Result {0, 0} NetworkError Unit × Option Text
    → Result {0, 0} NetworkError Unit × EthernetFiles
put_resolv_conf f (r, t) = (r, record { nodhcp = f.nodhcp; resolv_conf = t; config = f.config })

abbrev pub put_config :
    EthernetFiles
    → Result {0, 0} NetworkError Unit × Option Text
    → Result {0, 0} NetworkError Unit × EthernetFiles
put_config f (r, t) = (r, record { nodhcp = f.nodhcp; resolv_conf = f.resolv_conf; config = t })

-- Whether an optional text is a name server to be written.
abbrev pub is_server : (Text → Bool) → Text → Bool
is_server is_valid_ip [] = false
is_server is_valid_ip (c ∷ s) = is_valid_ip (c ∷ s)

-- An optional name server is refused only if it is there, not empty, and no address.
abbrev pub is_refused : (Text → Bool) → Option Text → Bool
is_refused is_valid_ip none = false
is_refused is_valid_ip (some []) = false
is_refused is_valid_ip (some (c ∷ s)) = not (is_valid_ip (c ∷ s))

abbrev pub static_config : SetEthernetConfigReq → Text → Text → Text → EthernetConfig
static_config req ip netmask gateway = record {
  dhcp = false;
  ip = some ip;
  netmask = some netmask;
  gateway = some gateway;
  dns1 = req.dns1;
  dns2 = req.dns2;
}

-- "{ip}/{cidr} {gateway}\n"
abbrev pub nodhcp_line : Text → ℕ → Text → Text
nodhcp_line ip cidr gateway = ip ++ (b'/' ∷ (print_short cidr ++ (b' ' ∷ (gateway ++ 10 ∷ []))))

module _ (lib : EthernetLibrary) where
  -- `read_saved_config`; the file is not read when `is_read` is false.
  unfoldable pub read_saved_config : Bool → EthernetFiles → EthernetConfig
  read_saved_config is_read f = elim f.config [
    | some yaml ↦ if is_read then or_dhcp (lib.from_yaml yaml) else dhcp_config (is_none f.nodhcp)
    | none ↦ dhcp_config (is_none f.nodhcp)
  ]

  abbrev pub server_line : Option Text → Text
  server_line none = []
  server_line (some dns) =
      if is_server lib.is_valid_ip dns then codes "nameserver " ++ (dns ++ 10 ∷ []) else []

  -- The checks of a static configuration, in order.
  unfoldable pub check_static : SetEthernetConfigReq → Text → Text → Text → Option String
  check_static req ip netmask gateway =
      if not (lib.is_valid_ip ip)
      then some "Invalid IP address"
      else if not (is_valid_netmask netmask)
      then some "Invalid netmask"
      else if not (lib.is_valid_ip gateway)
      then some "Invalid gateway"
      else if is_refused lib.is_valid_ip req.dns1
      then some "Invalid DNS1"
      else if is_refused lib.is_valid_ip req.dns2
      then some "Invalid DNS2"
      else none

module _ (lib : EthernetLibrary) (w : EthernetWrites) where
  abbrev pub write_yaml :
      Result {0, 0} String Text → EthernetFiles → Result {0, 0} NetworkError Unit × EthernetFiles
  write_yaml (err e) f = (err (command_failed e), f)
  write_yaml (ok yaml) f = put_config f (write w.config yaml)

  unfoldable pub save_ethernet_config :
      EthernetConfig → EthernetFiles → Result {0, 0} NetworkError Unit × EthernetFiles
  save_ethernet_config config f = elim w.create_dir [
    | some e ↦ (err (io e), f)
    | none ↦ write_yaml (lib.to_yaml config) f
  ]

  abbrev pub write_servers : Text → EthernetFiles → Result {0, 0} NetworkError Unit × EthernetFiles
  write_servers [] f = (ok tt, f)
  write_servers (c ∷ s) f = put_resolv_conf f (write w.resolv_conf (c ∷ s))

  unfoldable pub write_dns_config :
      Option Text → Option Text → EthernetFiles → Result {0, 0} NetworkError Unit × EthernetFiles
  write_dns_config dns1 dns2 f = write_servers (server_line lib dns1 ++ server_line lib dns2) f

  abbrev pub remove_nodhcp : EthernetFiles → EthernetFiles
  remove_nodhcp f =
      if w.nodhcp_removed
      then record { nodhcp = none; resolv_conf = f.resolv_conf; config = f.config }
      else f

  abbrev pub write_static :
      SetEthernetConfigReq
      → Text
      → Text
      → Text
      → Result NetworkError ℕ
      → EthernetFiles
      → Result {0, 0} NetworkError Unit × EthernetFiles
  write_static req ip netmask gateway (err e) f = (err e, f)
  write_static req ip netmask gateway (ok cidr) f =
      then_files (put_nodhcp f (write w.nodhcp (nodhcp_line ip cidr gateway))) (λ f.
        then_files (write_dns_config req.dns1 req.dns2 f)
          (λ f. save_ethernet_config (static_config req ip netmask gateway) f))

  abbrev pub set_checked :
      SetEthernetConfigReq
      → Text
      → Text
      → Text
      → EthernetFiles
      → Option String
      → Result {0, 0} NetworkError Unit × EthernetFiles
  set_checked req ip netmask gateway f (some msg) = (err (command_failed msg), f)
  set_checked req ip netmask gateway f none =
      write_static req ip netmask gateway (netmask_to_cidr netmask) f

  abbrev pub set_static :
      SetEthernetConfigReq
      → EthernetFiles
      → Option Text
      → Option Text
      → Option Text
      → Result {0, 0} NetworkError Unit × EthernetFiles
  set_static req f none netmask gateway =
      (err (command_failed "IP address required for static mode"), f)
  set_static req f (some ip) none gateway =
      (err (command_failed "Netmask required for static mode"), f)
  set_static req f (some ip) (some netmask) none =
      (err (command_failed "Gateway required for static mode"), f)
  set_static req f (some ip) (some netmask) (some gateway) =
      set_checked req ip netmask gateway f (check_static lib req ip netmask gateway)

  unfoldable pub set_ethernet_config :
      SetEthernetConfigReq → EthernetFiles → Result {0, 0} NetworkError Unit × EthernetFiles
  unfolding check_static save_ethernet_config write_dns_config
  set_ethernet_config req f =
      if req.dhcp
      then save_ethernet_config (dhcp_config true) (remove_nodhcp f)
      else set_static req f req.ip req.netmask req.gateway
