-- ===== src/Prelude/Bits.antt =====
-- `n & (n + 1)` on the native numbers: it is 0 for the numbers of ones alone.
use Prim.Native.Nat.{
  ℕ, zero, suc, ◌+◌, ◌*◌, ◌/◌, ◌%◌, ◌^◌, ◌≤◌, ◌<◌, bit_and, bit_and-bitwise, digits, min,
}
use mathlib.Core.Path.{◌≡◌, refl, sym, ap, ◌∙◌}
use mathlib.Core.Logic.{inl, inr}
use native.Mathlib.Omega.{arith}
use native.Mathlib.Nat.{pow-suc}
use rustykvm.Prelude.Tests.{◌==◌, ==_iff, Bool-cases}

-- `&` on at most `fuel` digits of `a`.
abbrev and_digits : ℕ → ℕ → ℕ → ℕ
and_digits fuel a b = digits (λ y. zero) min fuel a b

and_digits-zero : (fuel b : ℕ) → and_digits fuel 0 b ≡ 0
and_digits-zero zero b = refl
and_digits-zero (suc fuel) b = refl

-- More fuel than `a` does not matter.
and_digits_more : (a fuel b : ℕ) → a ≤ fuel → and_digits fuel a b ≡ and_digits a a b
and_digits_more a fuel b h = both fuel a a b h (omega arith)
  where
    both : (m n c d : ℕ) → c ≤ m → c ≤ n → and_digits m c d ≡ and_digits n c d
    both m n zero d p q = and_digits-zero m d ∙ sym (and_digits-zero n d)
    both zero n (suc c) d p q = absurd (omega arith)
    both (suc m) zero (suc c) d p q = absurd (omega arith)
    both (suc m) (suc n) (suc c) d p q =
        ap (λ r. r * 2 + min (suc c % 2) (d % 2))
          (both m n (suc c / 2) (d / 2) (omega arith) (omega arith))

-- The lowest digit apart.
pub bit_and-halves : (a b : ℕ) → bit_and a b ≡ bit_and (a / 2) (b / 2) * 2 + min (a % 2) (b % 2)
bit_and-halves zero b = simp bit_and-bitwise (omega arith)
bit_and-halves (suc a) b = simp bit_and-bitwise (
    ap (λ r. r * 2 + min (suc a % 2) (b % 2)) (and_digits_more (suc a / 2) a (b / 2) (omega arith)))

bit_and_self_below : (m n : ℕ) → n < m → bit_and n n ≡ n
bit_and_self_below zero n h = absurd (omega arith)
bit_and_self_below (suc m) zero h = refl
bit_and_self_below (suc m) (suc n) h =
    omega (arith, bit_and-halves (suc n) (suc n), bit_and_self_below m (suc n / 2) (omega arith))

-- `n` is written with ones alone.
abbrev pub IsOnes : ℕ → Type 0
IsOnes n = (k : ℕ) × (n + 1 ≡ 2 ^ k)

twice-IsOnes : (n : ℕ) → n % 2 ≡ 1 → IsOnes (n / 2) → IsOnes n
twice-IsOnes n h (k, e) = (suc k, omega (arith, pow-suc 2 k))

bit_and_below-IsOnes : (m n : ℕ) → n < m → bit_and n (n + 1) ≡ 0 → IsOnes n
bit_and_below-IsOnes zero n l h = absurd (omega arith)
bit_and_below-IsOnes (suc m) n l h = elim (Bool-cases (n % 2 == 1)) [
  | inl e ↦
      let odd : n % 2 ≡ 1 = (==_iff (n % 2) 1).0 e in
      let half : (n + 1) / 2 ≡ n / 2 + 1 = omega arith in
      let rest : bit_and (n / 2) (n / 2 + 1) ≡ 0 =
        omega (arith, bit_and-halves n (n + 1), ap (λ b. bit_and (n / 2) b) half) in
      twice-IsOnes n odd (bit_and_below-IsOnes m (n / 2) (omega arith) rest)
  | inr e ↦
      let even : n % 2 ≡ 0 = ground arith in
      let half : (n + 1) / 2 ≡ n / 2 = omega arith in
      let none : n / 2 ≡ 0 = omega (
        arith,
        bit_and-halves n (n + 1),
        ap (λ b. bit_and (n / 2) b) half,
        bit_and_self_below (n + 1) (n / 2) (omega arith),
      ) in
      (0, omega arith)
]

pub bit_and_suc-IsOnes : (n : ℕ) → bit_and n (n + 1) ≡ 0 → IsOnes n
bit_and_suc-IsOnes n h = bit_and_below-IsOnes (n + 1) n (omega arith) h

-- A mask without its `k` lowest digits reads the digits above them.
pub bit_and_high :
    (k q r m : ℕ) → r < 2 ^ k → bit_and (q * 2 ^ k + r) (m * 2 ^ k) ≡ bit_and q m * 2 ^ k
bit_and_high zero q r m h =
    let a : q * 1 + r ≡ q = omega arith in
    let b : m * 1 ≡ m = omega arith in rw (a, b) (omega arith)
bit_and_high (suc k) q r m h =
    let x : (q * 2 ^ suc k + r) / 2 ≡ q * 2 ^ k + r / 2 =
      omega (arith, pow-suc 2 k, ap (λ t. q * t) (pow-suc 2 k)) in
    let y : m * 2 ^ suc k / 2 ≡ m * 2 ^ k = omega (arith, ap (λ t. m * t) (pow-suc 2 k)) in
    let z : m * 2 ^ suc k % 2 ≡ 0 = omega (arith, ap (λ t. m * t) (pow-suc 2 k)) in
    let small : r / 2 < 2 ^ k = omega (arith, pow-suc 2 k) in
    omega (
      arith,
      bit_and-halves (q * 2 ^ suc k + r) (m * 2 ^ suc k),
      ap (λ t. bit_and t (m * 2 ^ suc k / 2)) x,
      ap (λ t. bit_and (q * 2 ^ k + r / 2) t) y,
      bit_and_high k q (r / 2) m small,
      ap (λ t. bit_and q m * t) (pow-suc 2 k),
    )
