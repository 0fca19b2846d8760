-- ===== src/Network/Netmask/Masks.antt =====
-- The netmasks that are accepted are those of the prefix lengths.
use rustykvm.Prelude.{
  ℕ, zero, suc, ◌+◌, ◌-◌, ◌*◌, ◌/◌, ◌%◌, ◌^◌, ◌≤◌, ◌<◌, ◌≡◌, refl, sym, ap, ◌∙◌, inl, inr, Bool,
  true, false, ◌&&◌, Option, none, some, List, [], ◌∷◌, arith, ltb, ◌==◌, ltb→lt, ==_iff,
  Bool-cases, length, All,
}
use rustykvm.Prelude.{all_below, all_below→test, both_true, bit_and}
use rustykvm.Prelude.Bits.{bit_and_suc-IsOnes}
use rustykvm.Prelude.Result.{ok}
use rustykvm.Prelude.Text.{Text, split, parse_unsigned, push_digits}
use native.Mathlib.Nat.{pow-le-pow_right}
use rustykvm.Network.Netmask.{
  push_octet, collect_octets, bits_of, is_mask, is_valid_netmask, scan_octets, scan_octet,
  netmask_to_cidr, mask_of,
}

-- The octets of a number of 32 bits.
abbrev pub octets_of : ℕ → List ℕ
octets_of mask = mask / 2 ^ 24 % 256 ∷ mask / 2 ^ 16 % 256 ∷ mask / 2 ^ 8 % 256 ∷ mask % 256 ∷ []

-- Every parsed octet fits a byte.
OctetsFit : Option (List ℕ) → Type 0
OctetsFit none = Unit
OctetsFit (some octets) = All (λ o. o < 256) octets

push_digits-fit :
    (acc : ℕ) (s : Text) (n : ℕ) → acc < 256 → push_digits 255 acc s ≡ some n → n < 256
unfolding push_digits
push_digits-fit acc [] n l h = ground arith
push_digits-fit acc (c ∷ s) n l h = ground (arith, push_digits-fit (acc * 10 + (c - b'0')) s n)

parse_octet-fit : (p : Text) (n : ℕ) → parse_unsigned 255 p ≡ some n → n < 256
unfolding parse_unsigned
parse_octet-fit [] n h = cc
parse_octet-fit (c ∷ []) n h = ground (arith, push_digits-fit 0 (c ∷ []) n)
parse_octet-fit (c ∷ d ∷ s) n h =
    ground (arith, push_digits-fit 0 (c ∷ d ∷ s) n, push_digits-fit 0 (d ∷ s) n)

push_octet-fit :
    (o : Option ℕ) (rest : Option (List ℕ))
    → ((n : ℕ) → o ≡ some n → n < 256)
    → OctetsFit rest
    → OctetsFit (push_octet o rest)
unfolding OctetsFit
push_octet-fit none rest h r = tt
push_octet-fit (some n) none h r = tt
push_octet-fit (some n) (some octets) h r = (h n refl, r)

collect_octets-fit : (parts : List Text) → OctetsFit (collect_octets parts)
unfolding OctetsFit collect_octets
collect_octets-fit [] = tt
collect_octets-fit (p ∷ parts) =
    push_octet-fit (parse_unsigned 255 p) (collect_octets parts) (parse_octet-fit p)
      (collect_octets-fit parts)

HasLength : ℕ → Option (List ℕ) → Type 0
HasLength n none = Unit
HasLength n (some octets) = length octets ≡ n

collect_octets-HasLength : (parts : List Text) → HasLength (length parts) (collect_octets parts)
unfolding HasLength collect_octets
collect_octets-HasLength [] = refl
collect_octets-HasLength (p ∷ parts) =
    pushed (parse_unsigned 255 p) (collect_octets parts) (collect_octets-HasLength parts)
  where
    pushed :
        (o : Option ℕ) (rest : Option (List ℕ))
        → HasLength (length parts) rest
        → HasLength (suc (length parts)) (push_octet o rest)
    pushed none rest h = tt
    pushed (some n) none h = tt
    pushed (some n) (some octets) h = omega (arith, h)

reads_back : ℕ → Bool
unfolding scan_octets scan_octet
reads_back k =
    (scan_octets (octets_of (2 ^ 32 - 2 ^ k)) 0 == 32 - k) && (mask_of (32 - k) == 2 ^ 32 - 2 ^ k)

all_read_back : all_below reads_back 33 ≡ true
unfolding reads_back
all_read_back = refl

power_bounded : (k : ℕ) → 2 ^ k ≤ 2 ^ 32 → k < 33
power_bounded k h = elim (Bool-cases (ltb k 33)) [
  | inl e ↦ ltb→lt k 33 e
  | inr e ↦
      let big : 2 ^ 33 ≤ 2 ^ k =
        pow-le-pow_right {n = 2} (omega arith) {i = 33} {j = k} (ground arith) in
      absurd (omega arith)
]

mask_is_power :
    (bits : ℕ) → bits < 2 ^ 32 → is_mask bits ≡ true → (k : ℕ) × (k < 33) × (bits ≡ 2 ^ 32 - 2 ^ k)
mask_is_power zero l h = (32, omega arith, refl)
mask_is_power (suc b) l h =
    let n = 2 ^ 32 - 1 - suc b in
    let fits : (n + 1) % 2 ^ 32 ≡ n + 1 = omega arith in
    let (k, e) =
      bit_and_suc-IsOnes n
        (ap (λ m. bit_and n m) (sym fits) ∙ (==_iff (bit_and n ((n + 1) % 2 ^ 32)) 0).0 h) in
    (k, power_bounded k (omega arith), omega arith)

octets_of_bits :
    (a b c d : ℕ)
    → a < 256
    → b < 256
    → c < 256
    → d < 256
    → octets_of (bits_of (a ∷ b ∷ c ∷ d ∷ [])) ≡ a ∷ b ∷ c ∷ d ∷ []
octets_of_bits a b c d p q r s =
    let x : (a * 2 ^ 24 + b * 2 ^ 16 + c * 2 ^ 8 + d) / 2 ^ 24 % 256 ≡ a = omega arith in
    let y : (a * 2 ^ 24 + b * 2 ^ 16 + c * 2 ^ 8 + d) / 2 ^ 16 % 256 ≡ b = omega arith in
    let z : (a * 2 ^ 24 + b * 2 ^ 16 + c * 2 ^ 8 + d) / 2 ^ 8 % 256 ≡ c = omega arith in
    let w : (a * 2 ^ 24 + b * 2 ^ 16 + c * 2 ^ 8 + d) % 256 ≡ d = omega arith in rw (x, y, z, w)

-- The octets that pass the test are those of a prefix length, and the count of their ones is that.
abbrev pub IsPrefixMask : List ℕ → ℕ → Type 0
IsPrefixMask octets cidr =
    (cidr ≤ 32) × (octets ≡ octets_of (mask_of cidr)) × (scan_octets octets 0 ≡ cidr)

octets-IsPrefixMask :
    (octets : List ℕ)
    → length octets ≡ 4
    → All (λ o. o < 256) octets
    → is_mask (bits_of octets) ≡ true
    → (cidr : ℕ) × IsPrefixMask octets cidr
unfolding reads_back
octets-IsPrefixMask (a ∷ b ∷ c ∷ d ∷ []) l (p, (q, (r, (s, u)))) h =
    let bits = a * 2 ^ 24 + b * 2 ^ 16 + c * 2 ^ 8 + d in
    let (k, small, e) = mask_is_power bits (omega arith) h in
    let (t, m) =
      both_true (scan_octets (octets_of (2 ^ 32 - 2 ^ k)) 0 == 32 - k)
        (mask_of (32 - k) == 2 ^ 32 - 2 ^ k) (all_below→test reads_back 33 k all_read_back small) in
    let same : octets_of (2 ^ 32 - 2 ^ k) ≡ a ∷ b ∷ c ∷ d ∷ [] =
      ap octets_of (sym e) ∙ octets_of_bits a b c d p q r s in
    (
      32 - k,
      (
        omega arith,
        sym same ∙ ap octets_of (sym ((==_iff (mask_of (32 - k)) (2 ^ 32 - 2 ^ k)).0 m)),
        ap (λ o. scan_octets o 0) (sym same)
            ∙ (==_iff (scan_octets (octets_of (2 ^ 32 - 2 ^ k)) 0) (32 - k)).0 t,
      ),
    )
octets-IsPrefixMask [] l f h = absurd (omega arith)
octets-IsPrefixMask (a ∷ []) l f h = absurd (omega arith)
octets-IsPrefixMask (a ∷ b ∷ []) l f h = absurd (omega arith)
octets-IsPrefixMask (a ∷ b ∷ c ∷ []) l f h = absurd (omega arith)
octets-IsPrefixMask (a ∷ b ∷ c ∷ d ∷ e ∷ o) l f h = absurd (omega arith)

-- What is read of a netmask whose octets are `o`.
IsRead : Text → Option (List ℕ) → Type 0
IsRead netmask o =
    (cidr : ℕ) × (cidr ≤ 32)
    × (netmask_to_cidr netmask ≡ ok cidr)
    × (o ≡ some (octets_of (mask_of cidr)))

octets-IsRead :
    (netmask : Text) (o : Option (List ℕ))
    → collect_octets (split b'.' netmask) ≡ o
    → OctetsFit o
    → HasLength (length (split b'.' netmask)) o
    → (length (split b'.' netmask) == 4) ≡ true
    → (elim o [ none ↦ false | some octets ↦ is_mask (bits_of octets) ]) ≡ true
    → IsRead netmask o
unfolding IsRead OctetsFit HasLength netmask_to_cidr
octets-IsRead netmask none e f l n h = cc
octets-IsRead netmask (some octets) e f l n h =
    let (cidr, (small, same, scanned)) =
      octets-IsPrefixMask octets (l ∙ (==_iff (length (split b'.' netmask)) 4).0 n) f h in
    (cidr, small, rw (n, e) (ap (λ m. ok m) scanned), ap (λ o. some o) same)

-- A netmask that is_valid_netmask accepts has a prefix length of at most 32: netmask_to_cidr
-- answers it, and the octets are those of cidr_to_netmask's mask for it.
pub valid_netmask-has_prefix :
    (netmask : Text)
    → is_valid_netmask netmask ≡ true
    → (cidr : ℕ) × (cidr ≤ 32)
      × (netmask_to_cidr netmask ≡ ok cidr)
      × (collect_octets (split b'.' netmask) ≡ some (octets_of (mask_of cidr)))
unfolding is_valid_netmask IsRead
valid_netmask-has_prefix netmask h = elim (Bool-cases (length (split b'.' netmask) == 4)) [
  | inl e ↦
      octets-IsRead netmask (collect_octets (split b'.' netmask)) refl
        (collect_octets-fit (split b'.' netmask)) (collect_octets-HasLength (split b'.' netmask)) e
        (sym (rw e refl) ∙ h)
  | inr e ↦ absurd (ground (arith, e))
]
