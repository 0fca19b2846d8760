-- ===== src/Passkey/Recovery/Codes.antt =====
-- A recovery code is accepted however it is typed.
use rustykvm.Prelude.{
  ℕ, zero, suc, ◌+◌, ◌≤◌, ◌<◌, ◌≡◌, refl, ◌⊎◌, inl, Bool, true, false, ◌&&◌, List, [], ◌∷◌, ◌++◌,
  arith, leb, if◌then◌else◌, length, get_or, All, list_eq_refl,
}
use rustykvm.Prelude.Trim.{IsVisible, trim_visible}
use rustykvm.Prelude.Text.{Text, is_whitespace, upper, to_uppercase, without_dashes}
use rustykvm.Passkey.Recovery.{charset, generate_recovery_code, normalize, matches}

abbrev pub to_lower : ℕ → ℕ
to_lower c = if leb b'A' c && leb c b'Z' then c + 32 else c

-- How a code may be typed: each letter as shown or in lower case, dashes left out or put in anywhere.
pub data Typed : Text → Text → Type 0 where
  end : Typed [] []
  shown : (c : ℕ) {s t : Text} → Typed s t → Typed (c ∷ s) (c ∷ t)
  lowered : (c : ℕ) {s t : Text} → Typed s t → Typed (c ∷ s) (to_lower c ∷ t)
  skipped : {s t : Text} → Typed s t → Typed (b'-' ∷ s) t
  added : {s t : Text} → Typed s t → Typed s (b'-' ∷ t)

-- The characters of codes: capital letters, digits and the dash.
abbrev IsPlain : ℕ → Type 0
IsPlain c = (c ≡ b'-') ⊎ ((b'0' ≤ c) × (c ≤ b'9')) ⊎ ((b'A' ≤ c) × (c ≤ b'Z'))

upper_shown : (tables : ℕ → Text) (c : ℕ) → IsPlain c → upper tables c ≡ c ∷ []
unfolding upper
upper_shown tables c h = ground arith

upper_lowered : (tables : ℕ → Text) (c : ℕ) → IsPlain c → upper tables (to_lower c) ≡ c ∷ []
unfolding upper
upper_lowered tables c h = ground arith

visible_shown : (c : ℕ) → IsPlain c → is_whitespace c ≡ false
unfolding is_whitespace
visible_shown c h = ground arith

visible_lowered : (c : ℕ) → IsPlain c → is_whitespace (to_lower c) ≡ false
unfolding is_whitespace
visible_lowered c h = ground arith

Typed-IsVisible : {s t : Text} → Typed s t → All IsPlain s → All IsVisible t
Typed-IsVisible end h = tt
Typed-IsVisible (shown c d) (p, h) = (visible_shown c p, Typed-IsVisible d h)
Typed-IsVisible (lowered c d) (p, h) = (visible_lowered c p, Typed-IsVisible d h)
Typed-IsVisible (skipped d) (p, h) = Typed-IsVisible d h
Typed-IsVisible (added d) h = (visible_shown b'-' (inl refl), Typed-IsVisible d h)

without_dashes-append :
    (s t : Text) → without_dashes (s ++ t) ≡ without_dashes s ++ without_dashes t
unfolding without_dashes
without_dashes-append [] t = refl
without_dashes-append (c ∷ s) t = ground (arith, without_dashes-append s t)

Typed-normal :
    (tables : ℕ → Text) {s t : Text}
    → Typed s t
    → All IsPlain s
    → without_dashes (to_uppercase tables t) ≡ without_dashes s
unfolding to_uppercase without_dashes
Typed-normal tables end h = refl
Typed-normal tables (shown c d) (p, h) = rw (upper_shown tables c p, Typed-normal tables d h)
Typed-normal tables (lowered c d) (p, h) = rw (upper_lowered tables c p, Typed-normal tables d h)
Typed-normal tables (skipped d) (p, h) = Typed-normal tables d h
Typed-normal tables (added d) h = Typed-normal tables d h

All-get_or : (P : ℕ → Type 0) (xs : List ℕ) (i d : ℕ) → All P xs → i < length xs → P (get_or xs i d)
All-get_or P [] i d h k = absurd (omega arith)
All-get_or P (x ∷ xs) zero d (p, h) k = p
All-get_or P (x ∷ xs) (suc i) d (p, h) k = All-get_or P xs i d h (omega arith)

charset-IsPlain : All IsPlain charset
charset-IsPlain = omega arith

abbrev pub AreIndices : (ℕ → ℕ) → Type 0
AreIndices random = (i : ℕ) → random i < length charset

generate-IsPlain :
    (random : ℕ → ℕ) → AreIndices random → All IsPlain (generate_recovery_code random)
unfolding generate_recovery_code
generate-IsPlain random h =
    let p : (i : ℕ) → IsPlain (get_or charset (random i) 0) =
      λ i. All-get_or IsPlain charset (random i) 0 charset-IsPlain (h i) in
    let dash : IsPlain b'-' = inl refl in
    (
      p 0,
      (
        p 1,
        (
          p 2,
          (
            p 3,
            (
              dash,
              (
                p 4,
                (
                  p 5,
                  (
                    p 6,
                    (
                      p 7,
                      (
                        dash,
                        (p 8, (p 9, (p 10, (p 11, (dash, (p 12, (p 13, (p 14, (p 15, tt))))))))),
                      ),
                    ),
                  ),
                ),
              ),
            ),
          ),
        ),
      ),
    )

-- A generated code, whatever the random numbers below the size of the alphabet, is matched by every
-- way to type it: with its letters in either case, and its dashes left out or others put in.
pub generated_code-matches :
    (tables : ℕ → Text) (random : ℕ → ℕ) (typed : Text) (used : Bool)
    → AreIndices random
    → Typed (generate_recovery_code random) typed
    → matches
        (normalize tables typed)
        (record { code = generate_recovery_code random; used = used })
      ≡ true
generated_code-matches tables random typed used h d =
    let plain = generate-IsPlain random h in
    rw (trim_visible typed (Typed-IsVisible d plain), Typed-normal tables d plain)
      (list_eq_refl (without_dashes (generate_recovery_code random)))
