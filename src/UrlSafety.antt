-- ===== src/UrlSafety.antt =====
-- server/src/url_safety.rs: which addresses the server may fetch from. The url crate and the resolver
-- are parameters; the tests of addresses are the standard library's.
pub mod Ranges
pub mod Guard
mod Tests
use rustykvm.Prelude.{
  ℕ, zero, suc, ◌+◌, ◌-◌, ◌*◌, ◌/◌, ◌%◌, ◌^◌, ◌≤◌, ◌<◌, min, String, ◌≡◌, refl, sym, ap, ◌∙◌, ◌≢◌,
  ◌↔◌, ◌⊎◌, inl, inr, Bool, true, false, not, ◌&&◌, ◌||◌, Option, none, some, List, [], ◌∷◌, ◌++◌,
  map, arith, eq_iff, str_eq, ltb, leb, ◌==◌, if◌then◌else◌, ltb→lt, lt→ltb, ltb_of_le, leb→le,
  ==_iff, tests, Bool-cases, Option-cases, is_some_and, length, get_elem?, get_elem?-of_lt, get_or,
  take, drop, replicate, any, all, retain, All, sum, sum-append, list_eq, list_eq→eq, list_eq_refl,
  length-append, length-take, length-drop, take-append-drop, length-retain-le,
}
use rustykvm.Prelude.{bit_and}
use rustykvm.Prelude.Result.{Result, ok, err}
use rustykvm.Prelude.Text.{Text, codes, trim, has_prefix}

-- Four octets, or the first of eight segments and the seven that follow.
pub data IpAddr : Type 0 where
  v4 : ℕ → ℕ → ℕ → ℕ → IpAddr
  v6 : ℕ → List ℕ → IpAddr

-- `Ipv4Addr::is_private`
abbrev pub is_private : ℕ → ℕ → Bool
is_private a b = (a == 10) || ((a == 172) && leb 16 b && leb b 31) || ((a == 192) && (b == 168))

abbrev pub is_blocked_v4 : ℕ → ℕ → ℕ → ℕ → Bool
is_blocked_v4 a b c d =
    is_private a b
    || (a == 127)
    || ((a == 169) && (b == 254))
    || ((a == 0) && (b == 0) && (c == 0) && (d == 0))
    || ((a == 255) && (b == 255) && (c == 255) && (d == 255))
    || (a == 0)
    || ((a == 100) && leb 64 b && leb b 127)
    || ((a == 169) && (b == 254))

abbrev pub is_loopback_v6 : ℕ → List ℕ → Bool
is_loopback_v6 s rest = (s == 0) && list_eq rest (0 ∷ 0 ∷ 0 ∷ 0 ∷ 0 ∷ 0 ∷ 1 ∷ [])

abbrev pub is_unspecified_v6 : ℕ → List ℕ → Bool
is_unspecified_v6 s rest = (s == 0) && list_eq rest (0 ∷ 0 ∷ 0 ∷ 0 ∷ 0 ∷ 0 ∷ 0 ∷ [])

unfoldable pub is_blocked_ip : IpAddr → Bool
is_blocked_ip (v4 a b c d) = is_blocked_v4 a b c d
is_blocked_ip (v6 s rest) =
    is_loopback_v6 s rest
    || is_unspecified_v6 s rest
    || (bit_and s 0xfe00 == 0xfc00)
    || (bit_and s 0xffc0 == 0xfe80)

-- `validate_socket_addr`, on the address without its port.
unfoldable pub validate_socket_addr : IpAddr → Result {0, 0} String Unit
unfolding is_blocked_ip
validate_socket_addr ip =
    if is_blocked_ip ip then err "private or reserved addresses are not allowed" else ok tt

-- `trim_matches(|c| c == '[' || c == ']')`, from the front and from the back.
abbrev pub is_bracket : ℕ → Bool
is_bracket c = (c == b'[') || (c == b']')

unfoldable pub trim_brackets_start : Text → Text
trim_brackets_start [] = []
trim_brackets_start (c ∷ s) =
    let rest = trim_brackets_start s in if is_bracket c then rest else c ∷ s

unfoldable pub trim_brackets_end : Text → Text
trim_brackets_end [] = []
trim_brackets_end (c ∷ s) = elim (trim_brackets_end s) [
  | [] ↦ if is_bracket c then [] else c ∷ []
  | d ∷ r ↦ c ∷ d ∷ r
]

-- `to_lowercase`: the host is ASCII, as the url crate gives it.
unfoldable pub to_lowercase : Text → Text
to_lowercase [] = []
to_lowercase (c ∷ s) = (if leb b'A' c && leb c b'Z' then c + 32 else c) ∷ to_lowercase s

unfoldable pub has_suffix : Text → Text → Bool
has_suffix suffix [] = list_eq suffix []
has_suffix suffix (c ∷ s) = list_eq suffix (c ∷ s) || has_suffix suffix s

unfoldable pub is_localhost : Text → Bool
unfolding has_suffix
is_localhost host = list_eq host (codes "localhost") || has_suffix (codes ".localhost") host

-- What the url crate reads; `port` with the scheme's default.
pub record Url : Type 0 where
  pub scheme : Text
  pub host : Option Text
  pub port : Option ℕ

pub record UrlLibrary : Type 0 where
  pub parse : Text → Option Url
  pub parse_ip : Text → Option IpAddr
  pub lookup_host : Text → ℕ → Option (List IpAddr)

unfoldable pub host_of : Text → Text
unfolding trim trim_brackets_start trim_brackets_end to_lowercase
host_of host = to_lowercase (trim_brackets_end (trim_brackets_start (trim host)))

-- The resolver's answers, in order.
unfoldable pub check_resolved : List IpAddr → Result {0, 0} String Unit
unfolding is_blocked_ip
check_resolved [] = ok tt
check_resolved (ip ∷ rest) =
    let others = check_resolved rest in
    if is_blocked_ip ip then err "hostname resolves to a private or reserved address" else others

abbrev pub port_or : Option ℕ → ℕ
port_or none = 443
port_or (some port) = port

abbrev pub keep_url : Url → Result {0, 0} String Unit → Result {0, 0} String Url
keep_url url (err e) = err e
keep_url url (ok u) = ok url

abbrev pub check_lookup : Url → Option (List IpAddr) → Result {0, 0} String Url
check_lookup url none = err "hostname could not be resolved"
check_lookup url (some []) = err "hostname could not be resolved"
check_lookup url (some (ip ∷ rest)) = keep_url url (check_resolved (ip ∷ rest))

module _ (lib : UrlLibrary) where
  abbrev pub check_host : Url → Text → Option IpAddr → Result {0, 0} String Url
  check_host url host (some ip) =
      if is_blocked_ip ip then err "private or reserved addresses are not allowed" else ok url
  check_host url host none = check_lookup url (lib.lookup_host host (port_or url.port))

  abbrev pub check_name : Url → Text → Result {0, 0} String Url
  check_name url [] = err "missing host"
  check_name url (c ∷ host) =
      if is_localhost (c ∷ host)
      then err "localhost is not allowed"
      else check_host url (c ∷ host) (lib.parse_ip (c ∷ host))

  abbrev pub check_url : Url → Option Text → Result {0, 0} String Url
  check_url url none = err "missing host"
  check_url url (some host) = check_name url (host_of host)

  abbrev pub check_scheme : Option Url → Result {0, 0} String Url
  check_scheme none = err "invalid url"
  check_scheme (some url) =
      if list_eq url.scheme (codes "http") || list_eq url.scheme (codes "https")
      then check_url url url.host
      else err "only http and https URLs are allowed"

  unfoldable pub validate_remote_http_url : Text → Result {0, 0} String Url
  unfolding is_localhost host_of check_resolved is_blocked_ip
  validate_remote_http_url url_str = check_scheme (lib.parse url_str)
