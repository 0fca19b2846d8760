-- ===== src/Passkey/CoseKey/Tests.antt =====
-- Runs of `CoseKey::from_cbor` and `verify_signature`, and the theorems at concrete inputs.
use rustykvm.Prelude.{
  ℕ, zero, suc, ◌≡◌, refl, ◌≢◌, Bool, true, none, some, List, [], ◌∷◌, arith, All,
}
use rustykvm.Prelude.Int.{negsuc}
use rustykvm.Passkey.Bytes.{byte}
use rustykvm.Passkey.Cbor.{read_int, read_bytes}
use rustykvm.Passkey.CoseKey.{read_field, CoseKey, Algorithm, from_cbor, verify_signature}
use rustykvm.Passkey.CoseKey.Verifying.{HasNoWideNegative, IsBlank, from_cbor-IsBlank}

reading : Unit {0}
unfolding from_cbor read_field verify_signature read_int read_bytes
reading = tt

-- The entries 1: [1] and 3: [255, 255, 254, 255].
abbrev rsa_data : List ℕ
rsa_data = 0xa1 ∷ 1 ∷ 1 ∷ 1 ∷ 3 ∷ 4 ∷ 255 ∷ 255 ∷ 254 ∷ 255 ∷ []

abbrev rsa_key : CoseKey
rsa_key = record { kty = 1; alg = negsuc 256; n = []; e = []; crv = none }

reads_rsa : from_cbor rsa_data ≡ some rsa_key
unfolding reading
reads_rsa = refl

-- The map of a real EC2 key, with the label -1 as 0x20, is refused; so is its header 0xa5.
refuses_ec2 :
    (from_cbor (0xa1 ∷ 1 ∷ 1 ∷ 2 ∷ 0x20 ∷ 1 ∷ 1 ∷ []) ≡ none)
    × (from_cbor (0xa5 ∷ 1 ∷ 1 ∷ 2 ∷ []) ≡ none)
unfolding reading
refuses_ec2 = (refl, refl)

byte-ne_27 : (bytes : List ℕ) (i : ℕ) → All (λ b. b ≢ 27) bytes → byte bytes i ≢ 27
byte-ne_27 [] i a = omega arith
byte-ne_27 (b ∷ bytes) zero (h, _) = h
byte-ne_27 (b ∷ bytes) (suc i) (_, a) = byte-ne_27 bytes i a

rsa_data_narrow : HasNoWideNegative rsa_data
rsa_data_narrow i e = absurd (byte-ne_27 rsa_data i (omega arith) e)

from_cbor-IsBlank_example : IsBlank rsa_key
from_cbor-IsBlank_example = from_cbor-IsBlank rsa_data rsa_key rsa_data_narrow reads_rsa

abbrev accepts : Algorithm → List ℕ → List ℕ → List ℕ → Bool
accepts a key message signature = true
