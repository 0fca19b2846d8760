-- ===== src/Network/Wol/Lines.antt =====
-- How a written line is read back: `lines` and `splitn` on it.
use rustykvm.Prelude.{ℕ, ◌≡◌, refl, ◌≢◌, none, some, List, [], ◌∷◌, ◌++◌, arith, All}
use rustykvm.Prelude.{append_assoc}
use rustykvm.Prelude.Text.{Text, lines, push_char, splitn_2}

-- A character that ends no line.
abbrev pub IsLineChar : ℕ → Type 0
IsLineChar c = (c ≢ 10) × (c ≢ 13)

-- Such a character that is no space.
abbrev pub IsMacChar : ℕ → Type 0
IsMacChar c = (c ≢ b' ') × IsLineChar c

pub MacChars-LineChars : (s : Text) → All IsMacChar s → All IsLineChar s
MacChars-LineChars [] h = tt
MacChars-LineChars (c ∷ s) (p, h) = (p.1, MacChars-LineChars s h)

pub All-append {ℓ κ} :
    {A : Type ℓ} (P : A → Type κ) (xs ys : List A) → All P xs → All P ys → All P (xs ++ ys)
All-append P [] ys h g = g
All-append P (x ∷ xs) ys (p, h) g = (p, All-append P xs ys h g)

line_pushed : (l s : Text) → All IsLineChar l → lines (l ++ 10 ∷ s) ≡ l ∷ lines s
unfolding lines push_char
line_pushed [] s h = refl
line_pushed (c ∷ []) s (p, h) = rw (line_pushed [] s tt) (ground (arith, p.0, p.1))
line_pushed (c ∷ d ∷ l) s (p, h) = rw (line_pushed (d ∷ l) s h) (ground (arith, p.0, p.1))

pub lines-line : (l s : Text) → All IsLineChar l → lines ((l ++ 10 ∷ []) ++ s) ≡ l ∷ lines s
lines-line l s h = rw (append_assoc l (10 ∷ []) s) (line_pushed l s h)

pub splitn-mac : (mac : Text) → All IsMacChar mac → splitn_2 b' ' mac ≡ (mac, none)
unfolding splitn_2
splitn-mac [] h = refl
splitn-mac (c ∷ mac) (p, h) = rw (splitn-mac mac h) (ground (arith, p.0))

pub splitn-line :
    (mac name : Text) → All IsMacChar mac → splitn_2 b' ' (mac ++ (b' ' ∷ name)) ≡ (mac, some name)
unfolding splitn_2
splitn-line [] name h = refl
splitn-line (c ∷ mac) name (p, h) = rw (splitn-line mac name h) (ground (arith, p.0))
