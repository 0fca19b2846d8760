-- ===== src/Network/Mac/Canonical.antt =====
-- The text that `parse_mac` makes of an address.
use rustykvm.Prelude.{
  ℕ, zero, suc, ◌+◌, ◌-◌, ◌*◌, ◌≡◌, refl, ◌⊎◌, inl, inr, Bool, true, false, some, [], ◌∷◌, arith,
  Bool-cases, length, all, All,
}
use mathlib.Core.Path.{subst}
use rustykvm.Prelude.Text.{Text, upper, to_uppercase}
use rustykvm.Network.Mac.{
  is_separator, without_separators, is_hex, is_match, push_pairs, parse_mac_text,
}

-- A capital hexadecimal digit or a colon.
abbrev pub IsMacDigit : ℕ → Type 0
IsMacDigit c = (is_hex c ≡ true) ⊎ (c ≡ b':')

all-All : (s : Text) → all is_hex s ≡ true → All (λ c. is_hex c ≡ true) s
all-All [] h = tt
all-All (c ∷ s) h = ground (arith, all-All s)

upper_digit : (tables : ℕ → Text) (c : ℕ) → IsMacDigit c → upper tables c ≡ c ∷ []
unfolding upper is_hex
upper_digit tables c h = ground arith

hex_kept : (c : ℕ) → is_hex c ≡ true → is_separator c ≡ false
unfolding is_separator is_hex
hex_kept c h = ground arith

-- The canonical form of `s`, cleaned again.
clean-push_pairs :
    (tables : ℕ → Text) (first : Bool) (k : ℕ) (s : Text)
    → length s ≡ k + k
    → All (λ c. is_hex c ≡ true) s
    → without_separators (to_uppercase tables (push_pairs first s)) ≡ s
unfolding push_pairs to_uppercase without_separators is_separator
clean-push_pairs tables first k [] l h = refl
clean-push_pairs tables first k (a ∷ []) l h = absurd (omega arith)
clean-push_pairs tables first zero (a ∷ b ∷ s) l h = absurd (omega arith)
clean-push_pairs tables true (suc k) (a ∷ b ∷ s) l (x, (y, h)) = rw (
  upper_digit tables a (inl x),
  upper_digit tables b (inl y),
  hex_kept a x,
  hex_kept b y,
  clean-push_pairs tables false k s (omega arith) h,
)
clean-push_pairs tables false (suc k) (a ∷ b ∷ s) l (x, (y, h)) = rw (
  upper_digit tables a (inl x),
  upper_digit tables b (inl y),
  hex_kept a x,
  hex_kept b y,
  clean-push_pairs tables false k s (omega arith) h,
)

length-push_pairs :
    (k : ℕ) (s : Text)
    → length s ≡ k + k
    → (length (push_pairs false s) ≡ 3 * k) × (length (push_pairs true s) ≡ 3 * k - 1)
unfolding push_pairs
length-push_pairs zero [] l = (refl, refl)
length-push_pairs (suc k) [] l = absurd (omega arith)
length-push_pairs k (a ∷ []) l = absurd (omega arith)
length-push_pairs zero (a ∷ b ∷ s) l = absurd (omega arith)
length-push_pairs (suc k) (a ∷ b ∷ s) l =
    let (p, q) = length-push_pairs k s (omega arith) in (omega arith, omega arith)

push_pairs-digits :
    (first : Bool) (s : Text) → All (λ c. is_hex c ≡ true) s → All IsMacDigit (push_pairs first s)
unfolding push_pairs
push_pairs-digits first [] h = tt
push_pairs-digits first (a ∷ []) h = tt
push_pairs-digits true (a ∷ b ∷ s) (x, (y, h)) = (inl x, (inl y, push_pairs-digits false s h))
push_pairs-digits false (a ∷ b ∷ s) (x, (y, h)) =
    (inr refl, (inl x, (inl y, push_pairs-digits false s h)))

-- What a parsed address is.
abbrev pub IsCanonical : (ℕ → Text) → Text → Type 0
IsCanonical tables t = (length t ≡ 17) × All IsMacDigit t × (parse_mac_text tables t ≡ some t)

push_pairs-IsCanonical :
    (tables : ℕ → Text) (s : Text) → is_match s ≡ true → IsCanonical tables (push_pairs true s)
unfolding is_match parse_mac_text push_pairs
push_pairs-IsCanonical tables s h =
    let l : length s ≡ 12 = ground arith in
    let d = all-All s (ground arith) in
    (
      (length-push_pairs 6 s l).1,
      push_pairs-digits true s d,
      rw (clean-push_pairs tables true 6 s l d, h),
    )

-- An address that parse_mac accepts becomes 17 characters, capital hexadecimal digits and colons, and
-- parsing that again gives the same, whatever the tables of Unicode.
pub parse_mac-IsCanonical :
    (tables : ℕ → Text) (mac t : Text) → parse_mac_text tables mac ≡ some t → IsCanonical tables t
unfolding parse_mac_text
parse_mac-IsCanonical tables mac t h =
    let s = without_separators (to_uppercase tables mac) in
    elim (Bool-cases (is_match s)) [
      | inl e ↦
          let q : push_pairs true s ≡ t = ground (arith, e) in
          subst (λ v. IsCanonical tables v) q (push_pairs-IsCanonical tables s e)
      | inr e ↦ absurd (ground (arith, e))
    ]
