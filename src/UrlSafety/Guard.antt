-- ===== src/UrlSafety/Guard.antt =====
-- What a URL that is accepted leads to.
use rustykvm.Prelude.{
  String, ◌≡◌, refl, ap, ◌∙◌, ◌⊎◌, inl, inr, true, false, ◌||◌, Option, none, some, List, [], ◌∷◌,
  arith, Bool-cases, All, list_eq,
}
use mathlib.Core.Path.{subst}
use rustykvm.Prelude.{◌++◌, list_eq→eq, ℕ, ◌≢◌, ◌≤◌, sym, list_eq_refl}
use rustykvm.UrlSafety.{v4, v6, has_suffix}
use rustykvm.UrlSafety.Ranges.{is_blocked_ip-ranges}
use rustykvm.Prelude.Result.{Result, ok, err}
use rustykvm.Prelude.Text.{Text, codes}
use rustykvm.UrlSafety.{
  IpAddr, is_blocked_ip, is_localhost, Url, UrlLibrary, host_of, check_resolved, port_or, keep_url,
  check_lookup, check_host, check_name, check_url, check_scheme, validate_remote_http_url,
}

-- An address outside of 10.0.0.0/8, 127.0.0.0/8, 0.0.0.0/8, 172.16.0.0/12, 192.168.0.0/16, 169.254.0.0/16,
-- 100.64.0.0/10 and 255.255.255.255, or one of IPv6 that is neither ::1 nor :: and not in fc00::/7 and
-- fe80::/10. The mapped addresses of IPv4, as ::ffff:127.0.0.1, are outside in this sense.
abbrev pub IsOutside : IpAddr → Type 0
IsOutside (v4 a b c d) =
    (a ≢ 10)
    × (a ≢ 127)
    × (a ≢ 0)
    × (¬ ((a ≡ 172) × (16 ≤ b) × (b ≤ 31)))
    × (¬ ((a ≡ 192) × (b ≡ 168)))
    × (¬ ((a ≡ 169) × (b ≡ 254)))
    × (¬ ((a ≡ 100) × (64 ≤ b) × (b ≤ 127)))
    × (¬ ((a ≡ 255) × (b ≡ 255) × (c ≡ 255) × (d ≡ 255)))
IsOutside (v6 s rest) =
    (¬ ((s ≡ 0) × (rest ≡ 0 ∷ 0 ∷ 0 ∷ 0 ∷ 0 ∷ 0 ∷ 1 ∷ [])))
    × (¬ ((s ≡ 0) × (rest ≡ 0 ∷ 0 ∷ 0 ∷ 0 ∷ 0 ∷ 0 ∷ 0 ∷ [])))
    × (¬ ((0xfc00 ≤ s) × (s ≤ 0xfdff)))
    × (¬ ((0xfe80 ≤ s) × (s ≤ 0xfebf)))

same_list : (xs ys : List ℕ) → xs ≡ ys → list_eq xs ys ≡ true
same_list xs ys e = rw e (list_eq_refl ys)

allowed-IsOutside : (ip : IpAddr) → is_blocked_ip ip ≡ false → IsOutside ip
unfolding is_blocked_ip
allowed-IsOutside (v4 a b c d) h = (
  ground (arith, h),
  ground (arith, h),
  ground (arith, h),
  ground (arith, h),
  ground (arith, h),
  ground (arith, h),
  ground (arith, h),
  ground (arith, h),
)
allowed-IsOutside (v6 s rest) h = (
  λ (e, r). ground (arith, h, e, same_list rest (0 ∷ 0 ∷ 0 ∷ 0 ∷ 0 ∷ 0 ∷ 1 ∷ []) r),
  λ (e, r). ground (arith, h, e, same_list rest (0 ∷ 0 ∷ 0 ∷ 0 ∷ 0 ∷ 0 ∷ 0 ∷ []) r),
  λ (l, m). ground (arith, sym (is_blocked_ip-ranges s rest (omega (arith, m))) ∙ h, l, m),
  λ (l, m). ground (arith, sym (is_blocked_ip-ranges s rest (omega (arith, m))) ∙ h, l, m),
)

-- Every address of the list is outside.
abbrev pub AreOutside : List IpAddr → Type 0
AreOutside ips = All IsOutside ips

-- A host that is not localhost and not below it.
abbrev pub IsForeign : Text → Type 0
IsForeign host =
    (host ≢ codes "localhost") × ((prefix : Text) → host ≢ (prefix ++ codes ".localhost"))

has_suffix-append : (prefix suffix : Text) → has_suffix suffix (prefix ++ suffix) ≡ true
unfolding has_suffix
has_suffix-append [] [] = refl
has_suffix-append [] (c ∷ suffix) = rw (list_eq_refl (c ∷ suffix)) refl
has_suffix-append (c ∷ prefix) suffix = ground (arith, has_suffix-append prefix suffix)

foreign : (host : Text) → is_localhost host ≡ false → IsForeign host
unfolding is_localhost
foreign host h = (
  λ e. ground (arith, h, same_list host (codes "localhost") e),
  λ prefix e.
      let below : has_suffix (codes ".localhost") host ≡ true =
        ap (has_suffix (codes ".localhost")) e ∙ has_suffix-append prefix (codes ".localhost") in
      ground (arith, h, below),
)

web_scheme :
    (scheme : Text)
    → (list_eq scheme (codes "http") || list_eq scheme (codes "https")) ≡ true
    → (scheme ≡ codes "http") ⊎ (scheme ≡ codes "https")
web_scheme scheme h = elim (Bool-cases (list_eq scheme (codes "http"))) [
  | inl e ↦ inl (list_eq→eq scheme (codes "http") e)
  | inr e ↦ inr (list_eq→eq scheme (codes "https") (ground (arith, e, h)))
]

module _ (lib : UrlLibrary) where
  -- The host is an address outside, or a name that the resolver gives such addresses for, and one at least.
  abbrev pub IsAllowedHost : Url → Text → Type 0
  IsAllowedHost url host =
      ((ip : IpAddr) × (lib.parse_ip host ≡ some ip) × IsOutside ip)
      ⊎ ((ip : IpAddr) × (ips : List IpAddr) × (lib.lookup_host host (port_or url.port)
            ≡ some (ip ∷ ips))
          × AreOutside (ip ∷ ips))

  resolved-AreOutside : (ips : List IpAddr) → check_resolved ips ≡ ok tt → AreOutside ips
  unfolding check_resolved
  resolved-AreOutside [] h = tt
  resolved-AreOutside (ip ∷ ips) h = elim (Bool-cases (is_blocked_ip ip)) [
    | inl e ↦ absurd (ground (arith, h, e))
    | inr e ↦ (allowed-IsOutside ip e, resolved-AreOutside ips (ground (arith, h, e)))
  ]

  kept-ok :
      (url url' : Url) (r : Result {0, 0} String Unit)
      → keep_url url r ≡ ok url'
      → (url ≡ url') × (r ≡ ok tt)
  kept-ok url url' (ok u) h = (ground (arith, h), refl)
  kept-ok url url' (err e) h = cc

  lookup_host-public :
      (url url' : Url) (o : Option (List IpAddr))
      → check_lookup url o ≡ ok url'
      → (url ≡ url')
        × ((ip : IpAddr) × (ips : List IpAddr) × (o ≡ some (ip ∷ ips)) × AreOutside (ip ∷ ips))
  lookup_host-public url url' none h = cc
  lookup_host-public url url' (some []) h = cc
  lookup_host-public url url' (some (ip ∷ ips)) h =
      let (same, r) = kept-ok url url' (check_resolved (ip ∷ ips)) h in
      (same, (ip, ips, refl, resolved-AreOutside (ip ∷ ips) r))

  host-public :
      (url url' : Url) (host : Text) (o : Option IpAddr)
      → lib.parse_ip host ≡ o
      → check_host lib url host o ≡ ok url'
      → (url ≡ url') × IsAllowedHost url host
  host-public url url' host none e h =
      let (same, w) = lookup_host-public url url' (lib.lookup_host host (port_or url.port)) h in
      (same, inr w)
  host-public url url' host (some ip) e h = elim (Bool-cases (is_blocked_ip ip)) [
    | inl b ↦ absurd (ground (arith, b, h))
    | inr b ↦ (ground (arith, b, h), inl (ip, e, allowed-IsOutside ip b))
  ]

  name_public :
      (url url' : Url) (host : Text)
      → check_name lib url host ≡ ok url'
      → (url ≡ url') × (is_localhost host ≡ false) × IsAllowedHost url host
  name_public url url' [] h = cc
  name_public url url' (c ∷ host) h = elim (Bool-cases (is_localhost (c ∷ host))) [
    | inl e ↦ absurd (ground (arith, e, h))
    | inr e ↦
        let (same, w) =
          host-public url url' (c ∷ host) (lib.parse_ip (c ∷ host)) refl (ground (arith, e, h)) in
        (same, e, w)
  ]

  url_public :
      (url url' : Url) (host : Option Text)
      → check_url lib url host ≡ ok url'
      → (h : Text) × (host ≡ some h)
        × (url ≡ url')
        × (is_localhost (host_of h) ≡ false)
        × IsAllowedHost url (host_of h)
  url_public url url' none h = cc
  url_public url url' (some host) h =
      let (same, l, w) = name_public url url' (host_of host) h in (host, refl, same, l, w)

  -- What an accepted URL is: a web address whose host is allowed and not localhost.
  abbrev pub IsAllowed : Url → Type 0
  IsAllowed url =
      ((url.scheme ≡ codes "http") ⊎ (url.scheme ≡ codes "https"))
      × ((host : Text) × (url.host ≡ some host)
          × IsForeign (host_of host)
          × IsAllowedHost url (host_of host))

  scheme-IsAllowed :
      (o : Option Url) (url' : Url)
      → check_scheme lib o ≡ ok url'
      → (url : Url) × (o ≡ some url) × (url ≡ url') × IsAllowed url
  scheme-IsAllowed none url' h = cc
  scheme-IsAllowed (some url) url' h =
      elim (Bool-cases (list_eq url.scheme (codes "http") || list_eq url.scheme (codes "https"))) [
        | inl e ↦
            let (host, q, same, l, w) = url_public url url' url.host (ground (arith, e, h)) in
            (url, refl, same, (web_scheme url.scheme e, (host, q, foreign (host_of host) l, w)))
        | inr e ↦ absurd (ground (arith, e, h))
      ]

  -- A URL that validate_remote_http_url accepts is the one that was parsed; its scheme is http or https, and
  -- its host is not localhost or below it. The host is an address outside of the networks that are refused,
  -- or a name for which the resolver answers one address at least and only such. Addresses of IPv4 that are
  -- mapped into IPv6 count as outside, those of refused networks too.
  pub accepted_url-IsAllowed :
      (url_str : Text) (url : Url)
      → validate_remote_http_url lib url_str ≡ ok url
      → (lib.parse url_str ≡ some url) × IsAllowed url
  unfolding validate_remote_http_url
  accepted_url-IsAllowed url_str url h =
      let (url', p, same, safe) = scheme-IsAllowed (lib.parse url_str) url h in
      (p ∙ ap (λ u. some u) same, subst IsAllowed same safe)
