-- ===== src/Network/Ethernet/Current.antt =====
-- network/src/lib.rs: what is in force now, read from the tool `ip` and from `RESOLV_CONF_FILE`.
pub mod Servers
use rustykvm.Prelude.{
  ℕ, zero, suc, ◌+◌, ◌-◌, ◌*◌, ◌/◌, ◌%◌, ◌^◌, ◌≤◌, ◌<◌, min, String, ◌≡◌, refl, sym, ap, ◌∙◌, ◌≢◌,
  ◌↔◌, ◌⊎◌, inl, inr, Bool, true, false, not, ◌&&◌, ◌||◌, Option, none, some, List, [], ◌∷◌, ◌++◌,
  map, arith, eq_iff, str_eq, ltb, leb, ◌==◌, if◌then◌else◌, ltb→lt, lt→ltb, ltb_of_le, leb→le,
  ==_iff, tests, Bool-cases, Option-cases, is_some_and, length, get_elem?, get_elem?-of_lt, get_or,
  take, drop, replicate, any, all, retain, All, sum, sum-append, list_eq, list_eq→eq, list_eq_refl,
  length-append, length-take, length-drop, take-append-drop, length-retain-le,
}
use rustykvm.Prelude.Text.{
  Text, codes, is_whitespace, trim, lines, splitn_2, parse_unsigned, strip_prefix, has_prefix,
  contains, split_whitespace,
}
use rustykvm.Network.Netmask.{cidr_to_netmask}

-- `trim_start_matches`: the prefix goes as often as it stands there; each time the text gets shorter.
unfoldable pub trim_start_matches : Text → ℕ → Text → Text
unfolding strip_prefix
trim_start_matches pattern zero s = s
trim_start_matches pattern (suc fuel) s = elim (strip_prefix pattern s) [
  | none ↦ s
  | some rest ↦ trim_start_matches pattern fuel rest
]

abbrev pub nameserver : Text
nameserver = codes "nameserver "

-- The server of one line.
unfoldable pub server_of : Text → Option Text
unfolding trim trim_start_matches has_prefix
server_of line =
    let t = trim line in
    if has_prefix nameserver t
    then some (trim (trim_start_matches nameserver (length t) t))
    else none

-- The first two servers.
unfoldable pub servers_of : List Text → List Text
unfolding server_of
servers_of [] = []
servers_of (line ∷ rest) = elim (server_of line) [
  | none ↦ servers_of rest
  | some server ↦ server ∷ servers_of rest
]

unfoldable pub get_dns_servers : Option Text → Option Text × Option Text
unfolding servers_of lines
get_dns_servers none = (none, none)
get_dns_servers (some content) =
    let servers = servers_of (lines content) in (get_elem? servers 0, get_elem? servers 1)

-- The word after the first `via` that has one.
unfoldable pub after_via : List Text → Option Text
after_via (p ∷ q ∷ parts) =
    let rest = after_via (q ∷ parts) in if list_eq p (codes "via") then some q else rest
after_via _ = none

unfoldable pub get_default_gateway : Option Text → Option Text
unfolding after_via split_whitespace
get_default_gateway none = none
get_default_gateway (some stdout) = after_via (split_whitespace stdout)

-- Address and netmask so far.
abbrev pub with_prefix : Option Text × Option Text → Text × Option Text → Option Text × Option Text
with_prefix (ip, netmask) (addr, none) = (ip, netmask)
with_prefix (ip, netmask) (addr, some cidr) = elim (parse_unsigned 255 cidr) [
  | none ↦ (some addr, netmask)
  | some cidr_num ↦ (some addr, some (cidr_to_netmask cidr_num))
]

abbrev pub with_part : Option Text × Option Text → Option Text → Option Text × Option Text
with_part found none = found
with_part found (some addr_part) = with_prefix found (splitn_2 b'/' addr_part)

-- One line of `ip addr show eth0`.
unfoldable pub read_line : Option Text × Option Text → Text → Option Text × Option Text
unfolding contains split_whitespace splitn_2 parse_unsigned cidr_to_netmask
read_line found line =
    if contains (codes "inet ") line && not (contains (codes "inet6") line)
    then with_part found (get_elem? (split_whitespace line) 1)
    else found

unfoldable pub read_lines : Option Text × Option Text → List Text → Option Text × Option Text
unfolding read_line
read_lines found [] = found
read_lines found (line ∷ rest) = read_lines (read_line found line) rest

-- The address, the netmask and the gateway.
unfoldable pub get_eth0_config : Option Text → Option Text → Option Text × Option Text × Option Text
unfolding read_lines lines get_default_gateway
get_eth0_config none route = (none, none, get_default_gateway route)
get_eth0_config (some stdout) route =
    let (ip, netmask) = read_lines (none, none) (lines stdout) in
    (ip, netmask, get_default_gateway route)
