-- ===== src/UrlSafety/Ranges.antt =====
-- The addresses that are refused, as networks and ranges.
use rustykvm.Prelude.{
  ℕ, ◌+◌, ◌*◌, ◌/◌, ◌%◌, ◌^◌, ◌<◌, ◌≡◌, refl, sym, ap, ◌∙◌, Bool, true, false, ◌&&◌, ◌||◌, List, [],
  ◌∷◌, arith, leb, ◌==◌, ==_iff, any,
}
use rustykvm.Prelude.{bit_and, all_below, all_below→test}
use rustykvm.Prelude.Bits.{bit_and_high}
use rustykvm.UrlSafety.{v4, v6, is_loopback_v6, is_unspecified_v6, is_blocked_ip}

-- The first digits of the addresses of a network, and how many digits are left free.
abbrev pub networks : List (ℕ × ℕ)
networks =
    (10, 24)
    ∷ (172 * 16 + 1, 20)
    ∷ (192 * 256 + 168, 16)
    ∷ (127, 24)
    ∷ (169 * 256 + 254, 16)
    ∷ (0, 24)
    ∷ (255 * 2 ^ 24 + 255 * 2 ^ 16 + 255 * 2 ^ 8 + 255, 0)
    ∷ (100 * 4 + 1, 22)
    ∷ []

abbrev pub is_in : ℕ → ℕ × ℕ → Bool
is_in n (prefix, free) = n / 2 ^ free == prefix

-- The address as one number.
abbrev pub number : ℕ → ℕ → ℕ → ℕ → ℕ
number a b c d = a * 2 ^ 24 + b * 2 ^ 16 + c * 2 ^ 8 + d

module _ (a b c d : ℕ) (p : a < 256) (q : b < 256) (r : c < 256) (s : d < 256) where
  divisions :
      (number a b c d / 2 ^ 24 ≡ a)
      × (number a b c d / 2 ^ 20 ≡ a * 16 + b / 16)
      × (number a b c d / 2 ^ 16 ≡ a * 256 + b)
      × (number a b c d / 2 ^ 22 ≡ a * 4 + b / 64)
      × (number a b c d / 2 ^ 0 ≡ number a b c d)
  divisions = (omega arith, omega arith, omega arith, omega arith, omega arith)

  tests_of_networks :
      ((a * 16 + b / 16 == 172 * 16 + 1) ≡ ((a == 172) && leb 16 b && leb b 31))
      × ((a * 256 + b == 192 * 256 + 168) ≡ ((a == 192) && (b == 168)))
      × ((a * 256 + b == 169 * 256 + 254) ≡ ((a == 169) && (b == 254)))
      × ((a * 4 + b / 64 == 100 * 4 + 1) ≡ ((a == 100) && leb 64 b && leb b 127))
      × ((number a b c d == 255 * 2 ^ 24 + 255 * 2 ^ 16 + 255 * 2 ^ 8 + 255)
          ≡ ((a == 255) && (b == 255) && (c == 255) && (d == 255)))
  tests_of_networks = (ground arith, ground arith, ground arith, ground arith, ground arith)

absorbed :
    (ten seventeen nineteen loop local zero_a zero_b zero_c zero_d all_ones shared : Bool)
    → ((ten || seventeen || nineteen)
        || loop
        || local
        || (zero_a && zero_b && zero_c && zero_d)
        || all_ones
        || zero_a
        || shared
        || local)
      ≡ (ten
          || (seventeen
              || (nineteen || (loop || (local || (zero_a || (all_ones || (shared || false))))))))
absorbed ten seventeen nineteen loop local zero_a zero_b zero_c zero_d all_ones shared =
    ground arith

-- The networks of IPv4.
is_blocked_ip-networks :
    (a b c d : ℕ)
    → a < 256
    → b < 256
    → c < 256
    → d < 256
    → is_blocked_ip (v4 a b c d) ≡ any (is_in (number a b c d)) networks
unfolding is_blocked_ip
is_blocked_ip-networks a b c d p q r s =
    let (x, y, z, w, v) = divisions a b c d p q r s in
    let (t, u, k, l, m) = tests_of_networks a b c d p q r s in
    rw (x, y, z, w, v, t, u, k, l, m)
      (absorbed (a == 10) ((a == 172) && leb 16 b && leb b 31) ((a == 192) && (b == 168)) (a == 127)
        ((a == 169) && (b == 254)) (a == 0) (b == 0) (c == 0) (d == 0)
        ((a == 255) && (b == 255) && (c == 255) && (d == 255))
        ((a == 100) && leb 64 b && leb b 127))

-- Masks of seven and of ten ones keep what fits them.
seven_kept : all_below (λ q. bit_and q 127 == q) 128 ≡ true
seven_kept = refl

ten_kept : all_below (λ q. bit_and q 1023 == q) 1024 ≡ true
ten_kept = refl

masked :
    (k m s : ℕ)
    → all_below (λ q. bit_and q m == q) (m + 1) ≡ true
    → s / 2 ^ k < m + 1
    → s % 2 ^ k < 2 ^ k
    → s / 2 ^ k * 2 ^ k + s % 2 ^ k ≡ s
    → bit_and s (m * 2 ^ k) ≡ s / 2 ^ k * 2 ^ k
masked k m s kept fits small whole =
    ap (λ t. bit_and t (m * 2 ^ k)) (sym whole)
    ∙ bit_and_high k (s / 2 ^ k) (s % 2 ^ k) m small
    ∙ ap (λ t. t * 2 ^ k)
        ((==_iff (bit_and (s / 2 ^ k) m) (s / 2 ^ k)).0
          (all_below→test (λ q. bit_and q m == q) (m + 1) (s / 2 ^ k) kept fits))

-- The ranges of IPv6.
pub is_blocked_ip-ranges :
    (s : ℕ) (rest : List ℕ)
    → s < 2 ^ 16
    → is_blocked_ip (v6 s rest) ≡ (
        is_loopback_v6 s rest
        || is_unspecified_v6 s rest
        || (leb 0xfc00 s && leb s 0xfdff)
        || (leb 0xfe80 s && leb s 0xfebf))
unfolding is_blocked_ip
is_blocked_ip-ranges s rest h =
    let u : bit_and s 0xfe00 ≡ s / 512 * 512 =
      masked 9 127 s seven_kept (omega arith) (omega arith) (omega arith) in
    let v : bit_and s 0xffc0 ≡ s / 64 * 64 =
      masked 6 1023 s ten_kept (omega arith) (omega arith) (omega arith) in
    let x : (s / 512 * 512 == 0xfc00) ≡ (leb 0xfc00 s && leb s 0xfdff) = ground arith in
    let y : (s / 64 * 64 == 0xfe80) ≡ (leb 0xfe80 s && leb s 0xfebf) = ground arith in
    rw (u, v, x, y) refl

-- An IPv4 address is refused exactly if it is in one of the networks 10.0.0.0/8, 172.16.0.0/12,
-- 192.168.0.0/16, 127.0.0.0/8, 169.254.0.0/16, 0.0.0.0/8, 255.255.255.255/32 and 100.64.0.0/10; an IPv6
-- address exactly if it is ::1 or ::, or its first segment is in fc00 to fdff or in fe80 to febf.
pub blocked_addresses :
    (a b c d s : ℕ) (rest : List ℕ)
    → a < 256
    → b < 256
    → c < 256
    → d < 256
    → s < 2 ^ 16
    → (is_blocked_ip (v4 a b c d) ≡ any (is_in (number a b c d)) networks)
      × (is_blocked_ip (v6 s rest) ≡ (
          is_loopback_v6 s rest
          || is_unspecified_v6 s rest
          || (leb 0xfc00 s && leb s 0xfdff)
          || (leb 0xfe80 s && leb s 0xfebf)))
blocked_addresses a b c d s rest p q r v h =
    (is_blocked_ip-networks a b c d p q r v, is_blocked_ip-ranges s rest h)
