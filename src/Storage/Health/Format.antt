-- ===== src/Storage/Health/Format.antt =====
-- How the kernel writes the wear and the end of life.
use rustykvm.Prelude.{ℕ, ◌≡◌, refl, inl, inr, none, some, List, [], ◌∷◌, ◌++◌, Bool-cases}
use rustykvm.Prelude.Text.{
  Text, codes, trim, is_whitespace, push_word, split_whitespace, parse_unsigned, push_digits,
}
use rustykvm.Storage.Health.{
  Sysfs, eol_unknown, read_sysfs_file, wear_of, read_wear_level, eol_of, read_pre_eol_info,
}

-- The first word of a text that begins with a character that is no white space.
push_word-first :
    (c : ℕ) (s : Text) (words : List Text)
    → (r : Text) × (rest : List Text) × (push_word c s words ≡ (c ∷ r) ∷ rest)
unfolding push_word
push_word-first c [] words = ([], words, refl)
push_word-first c (d ∷ s) [] = ([], [], refl)
push_word-first c (d ∷ s) (w ∷ words) = elim (Bool-cases (is_whitespace d)) [
  | inl e ↦ ([], w ∷ words, rw e refl)
  | inr e ↦ (w, words, rw e refl)
]

hex_unread : (s : Text) → wear_of (split_whitespace (b'0' ∷ b'x' ∷ s)) ≡ none
unfolding split_whitespace push_word parse_unsigned push_digits
hex_unread s =
    let (r, rest, e) = push_word-first b'x' s (split_whitespace s) in rw (e, push_word) refl

-- Readings that begin with 0x, as the kernel writes them: the wear level is not read, and the
-- end of life is unknown, whatever the digits are.
pub hex_readings-unread :
    (fs : Sysfs) (mmc_path life eol s t : Text)
    → fs.read (mmc_path ++ codes "/life_time") ≡ some life
    → fs.read (mmc_path ++ codes "/pre_eol_info") ≡ some eol
    → trim life ≡ b'0' ∷ b'x' ∷ s
    → trim eol ≡ b'0' ∷ b'x' ∷ t
    → (read_wear_level fs mmc_path ≡ none) × (read_pre_eol_info fs mmc_path ≡ some eol_unknown)
unfolding read_wear_level read_sysfs_file read_pre_eol_info eol_of
hex_readings-unread fs mmc_path life eol s t a b c d = (rw (a, c) (hex_unread s), rw (b, d) refl)
