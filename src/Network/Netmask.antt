-- ===== src/Network/Netmask.antt =====
-- network/src/lib.rs: netmasks and their prefix lengths.
pub mod Cidr
pub mod Masks
use rustykvm.Prelude.{
  ℕ, zero, suc, ◌+◌, ◌-◌, ◌*◌, ◌/◌, ◌%◌, ◌^◌, ◌≤◌, ◌<◌, min, String, ◌≡◌, refl, sym, ap, ◌∙◌, ◌≢◌,
  ◌↔◌, ◌⊎◌, inl, inr, Bool, true, false, not, ◌&&◌, ◌||◌, Option, none, some, List, [], ◌∷◌, ◌++◌,
  map, arith, eq_iff, str_eq, ltb, leb, ◌==◌, if◌then◌else◌, ltb→lt, lt→ltb, ltb_of_le, leb→le,
  ==_iff, tests, Bool-cases, Option-cases, is_some_and, length, get_elem?, get_elem?-of_lt, get_or,
  take, drop, replicate, any, all, retain, All, sum, sum-append, list_eq, list_eq→eq, list_eq_refl,
  length-append, length-take, length-drop, take-append-drop, length-retain-le,
}
use rustykvm.Prelude.{bit_and}
use rustykvm.Prelude.Result.{Result, ok, err}
use rustykvm.Prelude.Text.{Text, split, parse_unsigned, print_short}
use rustykvm.Network.Error.{NetworkError, command_failed}

-- `parts.iter().map(|p| p.parse::<u8>()).collect()`
abbrev pub push_octet : Option ℕ → Option (List ℕ) → Option (List ℕ)
push_octet (some octet) (some octets) = some (octet ∷ octets)
push_octet _ _ = none

unfoldable pub collect_octets : List Text → Option (List ℕ)
collect_octets [] = some []
collect_octets (p ∷ parts) = push_octet (parse_unsigned 255 p) (collect_octets parts)

-- The address as one number; the octets shifted into place have no digit in common, so `|` adds them.
abbrev pub bits_of : List ℕ → ℕ
bits_of octets =
    get_or octets 0 0 * 2 ^ 24
    + get_or octets 1 0 * 2 ^ 16
    + get_or octets 2 0 * 2 ^ 8
    + get_or octets 3 0

-- `inverted & inverted.wrapping_add(1) == 0` for `inverted = !bits`
abbrev pub is_mask : ℕ → Bool
is_mask bits = let inverted = 2 ^ 32 - 1 - bits in bit_and inverted ((inverted + 1) % 2 ^ 32) == 0

unfoldable pub is_valid_netmask : Text → Bool
unfolding collect_octets split parse_unsigned
is_valid_netmask netmask =
    let parts = split b'.' netmask in
    if not (length parts == 4)
    then false
    else (elim (collect_octets parts) [ none ↦ false | some octets ↦ is_mask (bits_of octets) ])

-- The count, and whether a digit was 0: the function returns there.
pub data Scan : Type 0 where
  counting : ℕ → Scan
  returned : ℕ → Scan

-- The digits of one octet below the i-th.
unfoldable pub scan_octet : ℕ → ℕ → ℕ → Scan
scan_octet zero octet cidr = counting cidr
scan_octet (suc i) octet cidr =
    let rest = scan_octet i octet (cidr + 1) in
    if octet / 2 ^ i % 2 == 1 then rest else returned cidr

unfoldable pub scan_octets : List ℕ → ℕ → ℕ
unfolding scan_octet
scan_octets [] cidr = cidr
scan_octets (octet ∷ octets) cidr = elim (scan_octet 8 octet cidr) [
  | returned n ↦ n
  | counting n ↦ scan_octets octets n
]

unfoldable pub netmask_to_cidr : Text → Result NetworkError ℕ
unfolding collect_octets scan_octets split parse_unsigned
netmask_to_cidr netmask =
    let parts = split b'.' netmask in
    if not (length parts == 4)
    then err (command_failed "Invalid netmask format")
    else (elim (collect_octets parts) [
      | none ↦ err (command_failed "Invalid netmask octets")
      | some octets ↦ ok (scan_octets octets 0)
    ])

-- `0xFFFFFFFF << (32 - cidr)` in 32 bits
abbrev pub mask_of : ℕ → ℕ
mask_of cidr = if cidr == 0 then 0 else 0xFFFFFFFF * 2 ^ (32 - cidr) % 2 ^ 32

unfoldable pub print_address : ℕ → Text
unfolding print_short
print_address mask =
    print_short (mask / 2 ^ 24 % 256)
    ++ (b'.'
        ∷ (print_short (mask / 2 ^ 16 % 256)
            ++ (b'.' ∷ (print_short (mask / 2 ^ 8 % 256) ++ (b'.' ∷ print_short (mask % 256))))))

unfoldable pub cidr_to_netmask : ℕ → Text
unfolding print_address
cidr_to_netmask cidr =
    if ltb 32 cidr then print_address 0xFFFFFF00 else print_address (mask_of cidr)
