-- ===== src/Network/Ethernet/Saved.antt =====
-- What a request for static addresses leaves behind.
use rustykvm.Prelude.{
  ℕ, ◌≤◌, String, ◌≡◌, refl, Bool, true, false, Option, none, some, [], ◌∷◌, ◌++◌, arith,
}
use rustykvm.Prelude.Result.{Result, ok, err}
use rustykvm.Prelude.Text.{Text, print_short}
use rustykvm.Network.Error.{NetworkError, command_failed, written}
use rustykvm.Network.Netmask.{is_valid_netmask, netmask_to_cidr}
use rustykvm.Network.Netmask.Masks.{valid_netmask-has_prefix}
use rustykvm.Network.Ethernet.{
  EthernetConfig, SetEthernetConfigReq, EthernetFiles, EthernetWrites, EthernetLibrary,
  save_ethernet_config, read_saved_config, server_line, write_servers, write_dns_config,
  check_static, static_config, nodhcp_line, set_checked, set_static, set_ethernet_config,
}

-- All three addresses are given, and every check passes.
abbrev pub accepts :
    EthernetLibrary → SetEthernetConfigReq → Option Text → Option Text → Option Text → Bool
accepts lib req (some ip) (some netmask) (some gateway) =
    elim (check_static lib req ip netmask gateway) [ none ↦ true | some msg ↦ false ]
accepts lib req _ _ _ = false

-- Every outcome is good: nothing fails to be written.
abbrev pub IsWritable : EthernetWrites → Type 0
IsWritable w =
    (w.nodhcp ≡ written) × (w.resolv_conf ≡ written) × (w.create_dir ≡ none) × (w.config ≡ written)

module _ (lib : EthernetLibrary) (w : EthernetWrites) (req : SetEthernetConfigReq) where
  checked-refused :
      (ip netmask gateway : Text) (f : EthernetFiles) (o : Option String)
      → (elim o [ none ↦ true | some msg ↦ false ]) ≡ false
      → (msg : String) × (set_checked lib w req ip netmask gateway f o
          ≡ (err (command_failed msg), f))
  checked-refused ip netmask gateway f none h = cc
  checked-refused ip netmask gateway f (some msg) h = (msg, refl)

  static-refused :
      (f : EthernetFiles) (ip netmask gateway : Option Text)
      → accepts lib req ip netmask gateway ≡ false
      → (msg : String) × (set_static lib w req f ip netmask gateway ≡ (err (command_failed msg), f))
  static-refused f none netmask gateway h = ("IP address required for static mode", refl)
  static-refused f (some ip) none gateway h = ("Netmask required for static mode", refl)
  static-refused f (some ip) (some netmask) none h = ("Gateway required for static mode", refl)
  static-refused f (some ip) (some netmask) (some gateway) h =
      checked-refused ip netmask gateway f (check_static lib req ip netmask gateway) h

  -- A static request that lacks an address or fails a check is refused with an error, and no file changes.
  pub refused_request :
      (f : EthernetFiles)
      → req.dhcp ≡ false
      → accepts lib req req.ip req.netmask req.gateway ≡ false
      → (msg : String) × (set_ethernet_config lib w req f ≡ (err (command_failed msg), f))
  unfolding set_ethernet_config
  refused_request f d h = rw d (static-refused f req.ip req.netmask req.gateway h)

  -- What the files are after a static request that is accepted.
  abbrev pub IsSaved : Text → Text → Text → Result {0, 0} NetworkError Unit × EthernetFiles → Type 0
  IsSaved ip netmask gateway s =
      (s.0 ≡ ok tt)
      × (read_saved_config lib true s.1 ≡ static_config req ip netmask gateway)
      × ((cidr : ℕ) × (cidr ≤ 32)
          × (netmask_to_cidr netmask ≡ ok cidr)
          × (s.1.nodhcp ≡ some (nodhcp_line ip cidr gateway)))

  saved-config :
      (config : EthernetConfig) (yaml : Text) (f : EthernetFiles)
      → IsWritable w
      → lib.to_yaml config ≡ ok yaml
      → save_ethernet_config lib w config f
        ≡ (ok tt, record { nodhcp = f.nodhcp; resolv_conf = f.resolv_conf; config = some yaml })
  unfolding save_ethernet_config
  saved-config config yaml f (a, b, c, d) y = rw (c, y, d) refl

  dns_written :
      (servers : Text) (f : EthernetFiles)
      → IsWritable w
      → (resolv_conf : Option Text) × (write_servers lib w servers f
          ≡ (ok tt, record { nodhcp = f.nodhcp; resolv_conf = resolv_conf; config = f.config }))
  dns_written [] f g = (f.resolv_conf, refl)
  dns_written (c ∷ s) f (a, b, g, d) = (some (c ∷ s), rw b refl)

  checked_netmask :
      (ip netmask gateway : Text)
      → check_static lib req ip netmask gateway ≡ none
      → is_valid_netmask netmask ≡ true
  unfolding check_static
  checked_netmask ip netmask gateway h = ground arith

  -- A static request that passes every check, while nothing fails to be written and the configuration reads
  -- back from its text: it succeeds, read_saved_config answers it, and the file of static addresses has the
  -- address with its netmask's prefix length of at most 32 and the gateway.
  pub accepted_request :
      (ip netmask gateway yaml : Text) (f : EthernetFiles)
      → req.dhcp ≡ false
      → req.ip ≡ some ip
      → req.netmask ≡ some netmask
      → req.gateway ≡ some gateway
      → check_static lib req ip netmask gateway ≡ none
      → IsWritable w
      → lib.to_yaml (static_config req ip netmask gateway) ≡ ok yaml
      → lib.from_yaml yaml ≡ some (static_config req ip netmask gateway)
      → IsSaved ip netmask gateway (set_ethernet_config lib w req f)
  unfolding set_ethernet_config write_dns_config read_saved_config print_short checked_netmask
  accepted_request ip netmask gateway yaml f d a b c k g y z =
      let (cidr, small, read, octets) =
        valid_netmask-has_prefix netmask (checked_netmask ip netmask gateway k) in
      let (t, s) =
        dns_written (server_line lib req.dns1 ++ server_line lib req.dns2)
          (record {
            nodhcp = some (nodhcp_line ip cidr gateway);
            resolv_conf = f.resolv_conf;
            config = f.config;
          })
          g in
      let saved =
        saved-config (static_config req ip netmask gateway) yaml
          (record {
            nodhcp = some (nodhcp_line ip cidr gateway);
            resolv_conf = t;
            config = f.config;
          })
          g y in
      rw (d, a, b, c, k, read, g.0, s, saved) (refl, rw z refl, (cidr, small, refl, refl))
