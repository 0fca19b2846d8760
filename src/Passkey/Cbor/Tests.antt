-- ===== src/Passkey/Cbor/Tests.antt =====
-- Runs of server/src/passkey/cbor.rs, and the theorems at concrete inputs.
use rustykvm.Prelude.{ℕ, ◌≡◌, refl, none, some, List, [], ◌∷◌}
use rustykvm.Prelude.Int.{pos, negsuc}
use rustykvm.Passkey.Cbor.{read_int, read_bytes}

reads :
    (read_int (25 ∷ 1 ∷ 2 ∷ []) 0 ≡ (some (pos 258), 3))
    × (read_int (26 ∷ 1 ∷ 2 ∷ []) 0 ≡ (none, 1))
    × (read_int (0x20 ∷ 1 ∷ []) 0 ≡ (none, 1))
    × (read_bytes (3 ∷ 7 ∷ 8 ∷ 9 ∷ []) 0 ≡ (some (7 ∷ 8 ∷ 9 ∷ []), 4))
    × (read_bytes (65 ∷ 2 ∷ 8 ∷ 9 ∷ []) 0 ≡ (some (8 ∷ 9 ∷ []), 4))
    × (read_bytes (0x43 ∷ 7 ∷ 8 ∷ 9 ∷ []) 0 ≡ (none, 1))
unfolding read_int read_bytes
reads = (refl, refl, refl, refl, refl, refl)

abbrev minus_one : List ℕ
minus_one = 27 ∷ 255 ∷ 255 ∷ 255 ∷ 255 ∷ 255 ∷ 255 ∷ 255 ∷ 255 ∷ []

reads_minus_one : read_int minus_one 0 ≡ (some (negsuc 0), 9)
unfolding read_int
reads_minus_one = refl
