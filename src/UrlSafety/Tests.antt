-- ===== src/UrlSafety/Tests.antt =====
-- The guard on addresses at concrete inputs.
use rustykvm.Prelude.{
  ◌≡◌, refl, false, ◌&&◌, ◌||◌, none, some, [], ◌∷◌, arith, leb, if◌then◌else◌, any, list_eq,
}
use rustykvm.Prelude.Result.{ok, err}
use rustykvm.Prelude.Text.{codes}
use rustykvm.UrlSafety.{
  v4, v6, is_loopback_v6, is_unspecified_v6, is_blocked_ip, Url, UrlLibrary,
  validate_remote_http_url,
}
use rustykvm.UrlSafety.Ranges.{networks, is_in, number, blocked_addresses}
use rustykvm.UrlSafety.Guard.{IsAllowed, accepted_url-IsAllowed}

blocked_addresses_example :
    (is_blocked_ip (v4 100 127 0 1) ≡ any (is_in (number 100 127 0 1)) networks)
    × (is_blocked_ip (v6 0xfd12 []) ≡ (
        is_loopback_v6 0xfd12 []
        || is_unspecified_v6 0xfd12 []
        || (leb 0xfc00 0xfd12 && leb 0xfd12 0xfdff)
        || (leb 0xfe80 0xfd12 && leb 0xfd12 0xfebf)))
blocked_addresses_example =
    blocked_addresses 100 127 0 1 0xfd12 [] (omega arith) (omega arith) (omega arith) (omega arith)
      (omega arith)

-- 127.0.0.1 mapped into IPv6 is not refused.
mapped_loopback : is_blocked_ip (v6 0 (0 ∷ 0 ∷ 0 ∷ 0 ∷ 0xffff ∷ 0x7f00 ∷ 1 ∷ [])) ≡ false
unfolding is_blocked_ip
mapped_loopback = refl

-- A resolver that knows one name.
abbrev lib : UrlLibrary
lib = record {
  parse = λ s. some (record { scheme = codes "https"; host = some s; port = none });
  parse_ip = λ s. if list_eq s (codes "10.0.0.1") then some (v4 10 0 0 1) else none;
  lookup_host = λ s port. some (v4 93 184 216 34 ∷ []);
}

abbrev example_url : Url
example_url = record { scheme = codes "https"; host = some (codes "Example.com"); port = none }

accepted : validate_remote_http_url lib (codes "Example.com") ≡ ok example_url
unfolding validate_remote_http_url
accepted = refl

accepted_url-IsAllowed_example :
    (lib.parse (codes "Example.com") ≡ some example_url) × IsAllowed lib example_url
accepted_url-IsAllowed_example =
    accepted_url-IsAllowed lib (codes "Example.com") example_url accepted

private_refused :
    validate_remote_http_url lib (codes "10.0.0.1")
    ≡ err "private or reserved addresses are not allowed"
unfolding validate_remote_http_url
private_refused = refl

below_localhost :
    validate_remote_http_url lib (codes "api.localhost") ≡ err "localhost is not allowed"
unfolding validate_remote_http_url
below_localhost = refl
