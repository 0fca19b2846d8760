-- ===== src/Prelude/Trim.antt =====
-- What `trim` keeps.
use Prim.Native.Nat.{ℕ}
use mathlib.Core.Path.{◌≡◌, refl}
use mathlib.Core.Bool.{false}
use mathlib.Core.List.{[], ◌∷◌, ◌++◌}
use rustykvm.Prelude.Lists.{All}
use rustykvm.Prelude.Text.{Text, is_whitespace, trim_end, trim}

-- A character that is no white space.
abbrev pub IsVisible : ℕ → Type 0
IsVisible c = is_whitespace c ≡ false

trim_end_kept : (c d : ℕ) (t r : Text) → trim_end t ≡ d ∷ r → trim_end (c ∷ t) ≡ c ∷ d ∷ r
unfolding trim_end
trim_end_kept c d t r h = rw h refl

trim_end_visible : (t : Text) → All IsVisible t → trim_end t ≡ t
unfolding trim_end
trim_end_visible [] h = refl
trim_end_visible (c ∷ []) (p, h) = rw p refl
trim_end_visible (c ∷ d ∷ t) (p, h) = trim_end_kept c d (d ∷ t) t (trim_end_visible (d ∷ t) h)

pub trim_visible : (t : Text) → All IsVisible t → trim t ≡ t
unfolding trim
trim_visible [] h = refl
trim_visible (c ∷ t) (p, h) = rw p (trim_end_visible (c ∷ t) (p, h))

trim_end_after :
    (s : Text) (d : ℕ) (t : Text) → All IsVisible (d ∷ t) → trim_end (s ++ d ∷ t) ≡ s ++ d ∷ t
trim_end_after [] d t h = trim_end_visible (d ∷ t) h
trim_end_after (c ∷ []) d t h = trim_end_kept c d (d ∷ t) t (trim_end_visible (d ∷ t) h)
trim_end_after (c ∷ e ∷ s) d t h =
    trim_end_kept c e (e ∷ (s ++ d ∷ t)) (s ++ d ∷ t) (trim_end_after (e ∷ s) d t h)

-- A text that begins and ends with what is no white space.
pub trim_between :
    (c : ℕ) (s : Text) (d : ℕ) (t : Text)
    → IsVisible c
    → All IsVisible (d ∷ t)
    → trim (c ∷ (s ++ d ∷ t)) ≡ c ∷ (s ++ d ∷ t)
unfolding trim
trim_between c s d t v h = rw v (trim_end_after (c ∷ s) d t h)
