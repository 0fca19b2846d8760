-- ===== src/Network/Tests.antt =====
-- Runs of the network code at concrete inputs.
use rustykvm.Prelude.{
  ℕ, ◌≤◌, ◌≡◌, refl, ◌↔◌, inl, inr, Bool, true, false, ◌||◌, Option, none, some, List, [], ◌∷◌,
  arith, leb, if◌then◌else◌, Bool-cases, All, list_eq, list_eq→eq,
}
use rustykvm.Prelude.Result.{ok}
use rustykvm.Prelude.Text.{Text, codes, to_uppercase, upper, lines, push_char, splitn_2, split}
use rustykvm.Prelude.{◌⊎◌}
use rustykvm.Prelude.Result.{err}
use rustykvm.Network.Error.{command_failed}
use rustykvm.Network.Error.{written}
use rustykvm.Network.Mac.{
  parse_mac_text, without_separators, is_separator, is_match, is_hex, push_pairs,
}
use rustykvm.Network.Wol.{
  WolEntry, WolIo, success, get_wol_macs, save_all_macs, set_wol_mac_name, print_entries, line_of,
  entries_of, rename_first,
}
use rustykvm.Network.Wol.Format.{get_wol_macs-save_all_macs}
use rustykvm.Network.Wol.Abstract.{WolOp, wake, set_name, delete, run_list, run_file}
use rustykvm.Network.Wol.Refinement.{run_file-refines}
use rustykvm.Network.Netmask.{is_valid_netmask, netmask_to_cidr, collect_octets, mask_of}
use rustykvm.Network.Netmask.Masks.{octets_of, valid_netmask-has_prefix}
use rustykvm.Network.Wifi.{WifiFiles, WifiWrites, connect_wifi}
use rustykvm.Network.Wifi.Waiting.{IsJoined, connect_wifi-IsJoined}
use rustykvm.Network.Ethernet.{
  EthernetConfig, EthernetFiles, EthernetWrites, EthernetLibrary, check_static, set_ethernet_config,
  write_dns_config,
}
use rustykvm.Network.Ethernet.Saved.{IsSaved, accepted_request}
use rustykvm.Network.Ethernet.Current.{get_dns_servers, get_default_gateway, get_eth0_config}
use rustykvm.Network.Ethernet.Current.Servers.{IsAddressChar, get_dns_servers-write_dns_config}

abbrev no_tables : ℕ → Text
no_tables c = c ∷ []

abbrev working_io : WolIo
working_io = record { read = none; create_dir = none; write = written }

abbrev ops : List WolOp
ops =
    wake "aa-bb-cc-dd-ee-0f" ∷ set_name "AA:BB:CC:DD:EE:0F" "nas" ∷ delete "11:22:33:44:55:66" ∷ []

run_file-refines_example :
    ((run_file no_tables (λ c. true) (λ t. success) working_io ops none).0
      ≡ (run_list no_tables (λ c. true) (λ t. success) ops []).0)
    × (get_wol_macs working_io (run_file no_tables (λ c. true) (λ t. success) working_io ops none).1
        ≡ ok (run_list no_tables (λ c. true) (λ t. success) ops []).1)
run_file-refines_example =
    run_file-refines no_tables (λ c. true) (λ t. success) working_io ops (refl, refl, refl)
      (ground arith)

parsed_mac : parse_mac_text no_tables (codes "aa-bb-cc-dd-ee-0f") ≡ some (codes "AA:BB:CC:DD:EE:0F")
unfolding parse_mac_text to_uppercase upper without_separators is_separator is_match is_hex
    push_pairs
parsed_mac = refl

abbrev nas : WolEntry
nas = record { mac = codes "AA:BB"; name = codes "nas" }

get_wol_macs-save_all_macs_example :
    get_wol_macs working_io (save_all_macs working_io (nas ∷ [])).1 ≡ ok (nas ∷ [])
get_wol_macs-save_all_macs_example =
    get_wol_macs-save_all_macs working_io (nas ∷ []) refl refl (ground arith)

-- A name with a line end puts a device of its own into the list.
renamed_twice :
    get_wol_macs working_io
      (set_wol_mac_name working_io "AA:BB" "x\nCC y" (some (codes "AA:BB nas\n"))).1
    ≡ ok (
        record { mac = codes "AA:BB"; name = codes "x" }
        ∷ record { mac = codes "CC"; name = codes "y" }
        ∷ [])
unfolding set_wol_mac_name get_wol_macs entries_of lines push_char splitn_2 rename_first
    save_all_macs print_entries line_of
renamed_twice = refl

abbrev netmask_22 : Text
netmask_22 = codes "255.255.252.0"

valid_22 : is_valid_netmask netmask_22 ≡ true
unfolding is_valid_netmask
valid_22 = refl

valid_netmask-has_prefix_example :
    (cidr : ℕ) × (cidr ≤ 32)
    × (netmask_to_cidr netmask_22 ≡ ok cidr)
    × (collect_octets (split b'.' netmask_22) ≡ some (octets_of (mask_of cidr)))
valid_netmask-has_prefix_example = valid_netmask-has_prefix netmask_22 valid_22

holes_refused : is_valid_netmask (codes "255.0.255.0") ≡ false
unfolding is_valid_netmask
holes_refused = refl

abbrev wifi_writes : WifiWrites
wifi_writes = record { ssid = written; passwd = written; connect = written }

abbrev no_wifi : WifiFiles
no_wifi = record { ssid = none; passwd = none; connect = none }

abbrev joined_late : ℕ → Option Text
joined_late i = if leb 12 i then some (codes "1\n") else none

connect_wifi-IsJoined_example :
    (((connect_wifi wifi_writes joined_late (codes "net") (codes "secret") no_wifi).0 ≡ ok tt)
      ↔ IsJoined joined_late)
    × (((connect_wifi wifi_writes joined_late (codes "net") (codes "secret") no_wifi).0 ≡ ok tt)
        ⊎ ((connect_wifi wifi_writes joined_late (codes "net") (codes "secret") no_wifi).0
            ≡ err (command_failed "Connection timed out")))
    × ((connect_wifi wifi_writes joined_late (codes "net") (codes "secret") no_wifi).1
        ≡ record { ssid = some (codes "net"); passwd = some (codes "secret"); connect = some [] })
connect_wifi-IsJoined_example =
    connect_wifi-IsJoined wifi_writes joined_late (codes "net") (codes "secret") no_wifi refl refl
      refl

joins : (connect_wifi wifi_writes joined_late (codes "net") (codes "secret") no_wifi).0 ≡ ok tt
unfolding connect_wifi
joins = refl

times_out :
    (connect_wifi wifi_writes (λ i. some (codes "0\n")) (codes "net") (codes "secret") no_wifi).0
    ≡ err (command_failed "Connection timed out")
unfolding connect_wifi
times_out = refl

-- Two of the addresses that the standard library takes.
abbrev is_known_ip : Text → Bool
is_known_ip t = list_eq t (codes "10.0.0.2") || list_eq t (codes "10.0.0.1")

abbrev request : EthernetConfig
request = record {
  dhcp = false;
  ip = some (codes "10.0.0.2");
  netmask = some netmask_22;
  gateway = some (codes "10.0.0.1");
  dns1 = some (codes "10.0.0.1");
  dns2 = none;
}

abbrev ethernet : EthernetLibrary
ethernet = record {
  is_valid_ip = is_known_ip;
  to_yaml = λ c. ok (codes "yaml");
  from_yaml = λ t. some request;
}

abbrev ethernet_writes : EthernetWrites
ethernet_writes = record {
  nodhcp_removed = true;
  nodhcp = written;
  resolv_conf = written;
  create_dir = none;
  config = written;
}

abbrev no_files : EthernetFiles
no_files = record { nodhcp = none; resolv_conf = none; config = none }

request_passes :
    check_static ethernet request (codes "10.0.0.2") netmask_22 (codes "10.0.0.1") ≡ none
unfolding check_static is_valid_netmask
request_passes = refl

accepted_request_example :
    IsSaved ethernet ethernet_writes request
      (codes "10.0.0.2")
      netmask_22
      (codes "10.0.0.1")
      (set_ethernet_config ethernet ethernet_writes request no_files)
accepted_request_example =
    accepted_request ethernet ethernet_writes request (codes "10.0.0.2") netmask_22
      (codes "10.0.0.1") (codes "yaml") no_files refl refl refl refl request_passes
      (refl, refl, refl, refl) refl refl

abbrev no_gateway : EthernetConfig
no_gateway = record {
  dhcp = false;
  ip = some (codes "10.0.0.2");
  netmask = some netmask_22;
  gateway = none;
  dns1 = none;
  dns2 = none;
}

known_strict : (t : Text) → is_known_ip t ≡ true → All IsAddressChar t
known_strict t h = elim (Bool-cases (list_eq t (codes "10.0.0.2"))) [
  | inl e ↦ let q : t ≡ codes "10.0.0.2" = list_eq→eq t (codes "10.0.0.2") e in rw q (ground arith)
  | inr e ↦
      let q : t ≡ codes "10.0.0.1" = list_eq→eq t (codes "10.0.0.1") (ground (arith, h, e)) in
      rw q (ground arith)
]

get_dns_servers-write_dns_config_example :
    get_dns_servers
      (write_dns_config ethernet ethernet_writes
        (some (codes "10.0.0.1"))
        (some (codes "10.0.0.2"))
        no_files).1.resolv_conf
    ≡ (some (codes "10.0.0.1"), some (codes "10.0.0.2"))
get_dns_servers-write_dns_config_example =
    get_dns_servers-write_dns_config ethernet ethernet_writes no_files (codes "10.0.0.1")
      (codes "10.0.0.2") known_strict refl refl refl

route :
    get_default_gateway (some (codes "default via 10.0.0.1 dev eth0\n")) ≡ some (codes "10.0.0.1")
unfolding get_default_gateway
route = refl

address :
    get_eth0_config (some (codes "  inet6 fe80::1/64\n  inet 10.0.0.2/22 brd\n")) none
    ≡ (some (codes "10.0.0.2"), some (codes "255.255.252.0"), none)
unfolding get_eth0_config
address = refl
