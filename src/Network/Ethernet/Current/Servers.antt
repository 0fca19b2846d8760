-- ===== src/Network/Ethernet/Current/Servers.antt =====
-- The name servers that are written are the ones that are read.
use rustykvm.Prelude.{
  ℕ, zero, suc, ◌≤◌, ◌≡◌, refl, sym, ap, ◌∙◌, ◌⊎◌, true, none, some, [], ◌∷◌, ◌++◌, arith, length,
  All,
}
use rustykvm.Prelude.{append-nil}
use rustykvm.Prelude.Text.{Text, codes, is_whitespace, trim, lines, strip_prefix, has_prefix}
use rustykvm.Prelude.Trim.{IsVisible, trim_visible, trim_between}
use rustykvm.Network.Error.{written}
use rustykvm.Network.Wol.Lines.{IsLineChar, lines-line}
use rustykvm.Network.Ethernet.{
  EthernetFiles, EthernetWrites, EthernetLibrary, is_server, write_dns_config,
}
use rustykvm.Network.Ethernet.Current.{
  trim_start_matches, nameserver, server_of, servers_of, get_dns_servers,
}

-- A character of an IP address: a hexadecimal digit, a dot or a colon.
abbrev pub IsAddressChar : ℕ → Type 0
IsAddressChar c =
    ((b'0' ≤ c) × (c ≤ b':')) ⊎ ((b'A' ≤ c) × (c ≤ b'F')) ⊎ ((b'a' ≤ c) × (c ≤ b'f')) ⊎ (c ≡ b'.')

address-IsVisible : (s : Text) → All IsAddressChar s → All IsVisible s
unfolding is_whitespace
address-IsVisible [] h = tt
address-IsVisible (c ∷ s) (p, h) = (ground (arith, p), address-IsVisible s h)

address-IsLine : (s : Text) → All IsAddressChar s → All IsLineChar s
address-IsLine [] h = tt
address-IsLine (c ∷ s) (p, h) = ((ground (arith, p), ground (arith, p)), address-IsLine s h)

no_prefix : (c : ℕ) (s : Text) → IsAddressChar c → strip_prefix nameserver (c ∷ s) ≡ none
unfolding strip_prefix
no_prefix c s p = ground (arith, p)

-- The word goes once, since an address does not begin with it.
stripped_twice :
    (fuel c : ℕ) (s : Text)
    → IsAddressChar c
    → trim_start_matches nameserver (suc fuel) (nameserver ++ c ∷ s) ≡ c ∷ s
unfolding trim_start_matches strip_prefix
stripped_twice zero c s p = refl
stripped_twice (suc fuel) c s p = rw (no_prefix c s p, trim_start_matches) refl

server_of_line :
    (c : ℕ) (s : Text) → All IsAddressChar (c ∷ s) → server_of (nameserver ++ c ∷ s) ≡ some (c ∷ s)
unfolding server_of has_prefix trim_start_matches
server_of_line c s (p, h) =
    rw (trim_between b'n' (codes "ameserver ") c s refl (address-IsVisible (c ∷ s) (p, h))) (
      ap (λ t. some (trim t)) (stripped_twice (length (codes "ameserver " ++ c ∷ s)) c s p)
      ∙ ap (λ t. some t) (trim_visible (c ∷ s) (address-IsVisible (c ∷ s) (p, h))))

line_of_server : Text → Text
line_of_server a = nameserver ++ (a ++ 10 ∷ [])

lines-server :
    (c : ℕ) (s rest : Text)
    → All IsAddressChar (c ∷ s)
    → servers_of (lines (line_of_server (c ∷ s) ++ rest)) ≡ (c ∷ s) ∷ servers_of (lines rest)
unfolding line_of_server servers_of
lines-server c s rest h =
    rw (lines-line (nameserver ++ c ∷ s) rest (word_lines (address-IsLine (c ∷ s) h)))
      (rw (server_of_line c s h) refl)
  where
    word_lines : All IsLineChar (c ∷ s) → All IsLineChar (nameserver ++ c ∷ s)
    word_lines a = ground (arith, a)

both_lines :
    (c d : ℕ) (s t : Text)
    → All IsAddressChar (c ∷ s)
    → All IsAddressChar (d ∷ t)
    → get_dns_servers (some (line_of_server (c ∷ s) ++ line_of_server (d ∷ t)))
      ≡ (some (c ∷ s), some (d ∷ t))
unfolding get_dns_servers
both_lines c d s t h g =
    rw
      (
        lines-server c s (line_of_server (d ∷ t)) h,
        sym (append-nil (line_of_server (d ∷ t))),
        lines-server d t [] g,
      )
      refl

-- Two name servers that the parser takes, as addresses are written with digits, dots and colons
-- alone, are the two that get_dns_servers answers after write_dns_config wrote them.
pub get_dns_servers-write_dns_config :
    (lib : EthernetLibrary) (w : EthernetWrites) (f : EthernetFiles) (dns1 dns2 : Text)
    → ((t : Text) → lib.is_valid_ip t ≡ true → All IsAddressChar t)
    → w.resolv_conf ≡ written
    → is_server lib.is_valid_ip dns1 ≡ true
    → is_server lib.is_valid_ip dns2 ≡ true
    → get_dns_servers (write_dns_config lib w (some dns1) (some dns2) f).1.resolv_conf
      ≡ (some dns1, some dns2)
unfolding write_dns_config line_of_server
get_dns_servers-write_dns_config lib w f [] dns2 strict e a b = cc
get_dns_servers-write_dns_config lib w f (c ∷ s) [] strict e a b = cc
get_dns_servers-write_dns_config lib w f (c ∷ s) (d ∷ t) strict e a b =
    rw (a, b, e) (both_lines c d s t (strict (c ∷ s) a) (strict (d ∷ t) b))
