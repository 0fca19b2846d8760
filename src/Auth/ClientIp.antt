-- ===== src/Auth/ClientIp.antt =====
-- server/src/auth.rs: `client_ip`, the address that failed logins are counted under.
use rustykvm.Prelude.{
  ℕ, ◌≡◌, refl, ◌≢◌, Bool, true, false, Option, none, some, [], ◌∷◌, ◌++◌, arith, if◌then◌else◌,
  All,
}
use rustykvm.Prelude.Text.{Text, trim, splitn_2}
use rustykvm.Prelude.Trim.{IsVisible, trim_visible}

-- A header that is missing, or no text, is `none`.
abbrev pub non_empty : Text → Option Text
non_empty [] = none
non_empty (c ∷ s) = some (c ∷ s)

-- The first item of `X-Forwarded-For`, trimmed, unless it is empty.
unfoldable pub first_item : Option Text → Option Text
unfolding trim splitn_2
first_item none = none
first_item (some h) = non_empty (trim (splitn_2 b',' h).0)

unfoldable pub real_ip : Option Text → Option Text
unfolding trim
real_ip none = none
real_ip (some h) = non_empty (trim h)

abbrev pub or_peer : Option Text → Text
or_peer none = b'u' ∷ b'n' ∷ b'k' ∷ b'n' ∷ b'o' ∷ b'w' ∷ b'n' ∷ []
or_peer (some ip) = ip

abbrev pub first_of : Option Text → Option Text → Text → Text
first_of (some ip) real peer = ip
first_of none (some ip) peer = ip
first_of none none peer = peer

-- The two headers, the peer's address, and whether the headers are trusted.
unfoldable pub client_ip : Option Text → Option Text → Option Text → Bool → Text
unfolding first_item real_ip
client_ip forwarded_for x_real_ip peer trust_forwarded =
    if trust_forwarded
    then first_of (first_item forwarded_for) (real_ip x_real_ip) (or_peer peer)
    else or_peer peer

splitn-item : (s rest : Text) → All (λ c. c ≢ b',') s → (splitn_2 b',' (s ++ b',' ∷ rest)).0 ≡ s
unfolding splitn_2
splitn-item [] rest h = refl
splitn-item (c ∷ s) rest (p, h) = rw (splitn-item s rest h) (ground (arith, p))

-- Where forwarded headers are trusted, the address is the first item of X-Forwarded-For, if it has no
-- comma or white space and is not empty, whatever proxies append behind it; where they are not, the
-- headers do not matter.
pub client_ip-forged :
    (c : ℕ) (s rest : Text) (x_real_ip peer : Option Text)
    → All (λ c. c ≢ b',') (c ∷ s)
    → All IsVisible (c ∷ s)
    → (client_ip (some ((c ∷ s) ++ b',' ∷ rest)) x_real_ip peer true ≡ c ∷ s)
      × (client_ip (some ((c ∷ s) ++ b',' ∷ rest)) x_real_ip peer false
          ≡ client_ip none none peer false)
unfolding client_ip first_item
client_ip-forged c s rest x_real_ip peer h v =
    (rw (splitn-item (c ∷ s) rest h, trim_visible (c ∷ s) v) refl, refl)
