-- ===== src/Passkey/CoseKey/Verifying.antt =====
-- What a key that was read can verify.
use rustykvm.Prelude.{
  ℕ, zero, suc, ◌+◌, ◌^◌, ◌≤◌, ◌<◌, ◌≡◌, refl, ◌⊎◌, inl, inr, Bool, true, none, some, List, [], ◌∷◌,
  arith, leb, Bool-cases, Option-cases, length,
}
use rustykvm.Prelude.Int.{ℤ, pos, negsuc}
use rustykvm.Passkey.Bytes.{byte, slice, from_be_bytes}
use rustykvm.Passkey.Cbor.Bounds.{read_int_negative}
use rustykvm.Passkey.CoseKey.{
  CoseKey, Fields, get, Scan, unfinished, refused, scanned, read_field, read_fields, key_of, finish,
  from_cbor,
}
use rustykvm.Passkey.CoseKey.{
  Algorithm, rsa_pkcs1_2048_8192_sha256, asn1_of, point_of, curve_of, verify_signature,
}
use rustykvm.Passkey.CoseKey.Reading.{read_field-some}

-- No eight-byte integer of the data has its top bit set.
abbrev pub HasNoWideNegative : List ℕ → Type 0
HasNoWideNegative bytes =
    (i : ℕ) → byte bytes i ≡ 27 → from_be_bytes (slice bytes (i + 1) 8) < 2 ^ 63

abbrev HasNoNegativeKey : Fields → Type 0
HasNoNegativeKey m = (j : ℕ) → get (negsuc j) m ≡ none

key_not_negative :
    (bytes : List ℕ) (offset : ℕ) {k : ℤ} {v : List ℕ}
    → HasNoWideNegative bytes
    → (read_field bytes offset).0 ≡ some (k, v)
    → (n : ℕ) × (k ≡ pos n)
key_not_negative bytes offset {k = pos n} h e = (n, refl)
key_not_negative bytes offset {k = negsuc j} h e =
    let (header, high) = read_int_negative bytes offset j (read_field-some bytes offset e).0 in
    absurd (omega (arith, h offset header, high))

HasNoNegativeKey-cons :
    {k : ℤ} (v : List ℕ) (m : Fields)
    → (n : ℕ) × (k ≡ pos n)
    → HasNoNegativeKey m
    → HasNoNegativeKey ((k, v) ∷ m)
unfolding get
HasNoNegativeKey-cons v m (n, e) h = λ j. rw e (h j)

read_fields-HasNoNegativeKey :
    (fuel : ℕ) (bytes : List ℕ) (offset : ℕ) (m m' : Fields)
    → HasNoWideNegative bytes
    → HasNoNegativeKey m
    → read_fields fuel bytes offset m ≡ scanned m'
    → HasNoNegativeKey m'
unfolding read_fields
read_fields-HasNoNegativeKey zero bytes offset m m' h n e = cc
read_fields-HasNoNegativeKey (suc fuel) bytes offset m m' h n e =
    elim (Bool-cases (leb (length bytes) offset)) [
      | inl done ↦ let same : m ≡ m' = ground arith in rw same at n
      | inr more ↦ elim (Option-cases ((read_field bytes offset).0)) [
        | inl missing ↦ absurd (ground arith)
        | inr ((k, v), found) ↦
            read_fields-HasNoNegativeKey fuel bytes (read_field bytes offset).1 ((k, v) ∷ m) m' h
              (HasNoNegativeKey-cons v m (key_not_negative bytes offset h found) n) (ground arith)
      ]
    ]

-- The parts of a key whose map has no negative label.
abbrev pub IsBlank : CoseKey → Type 0
IsBlank k = (k.n ≡ []) × (k.e ≡ []) × (k.crv ≡ none)

key_of-IsBlank : (m : Fields) → HasNoNegativeKey m → IsBlank (key_of m)
unfolding key_of
key_of-IsBlank m h = (rw (h 0), rw (h 1), rw (h 0, key_of))

finish-some :
    (r : Scan) {k : CoseKey} → finish r ≡ some k → (m : Fields) × (r ≡ scanned m) × (key_of m ≡ k)
unfolding finish
finish-some (scanned m) h = (m, refl, ground arith)
finish-some unfinished h = cc
finish-some refused h = cc

-- Data with no eight-byte integer of 2 ^ 63 or more, read as a key, gives a key with no modulus, no
-- exponent and no curve, whatever its labels -1 and -2 were meant to be.
pub from_cbor-IsBlank :
    (bytes : List ℕ) (k : CoseKey) → HasNoWideNegative bytes → from_cbor bytes ≡ some k → IsBlank k
unfolding from_cbor
from_cbor-IsBlank bytes k h e =
    let fields = finish-some (read_fields (length bytes) bytes 1 []) {k = k} (ground arith) in
    rw (← fields.2) (
      key_of-IsBlank fields.0 (
        read_fields-HasNoNegativeKey (length bytes) bytes 1 [] fields.0 h (λ j. unfold get in refl)
          fields.1))

-- What a valid signature says of the key, for every verifier: an RSA key with one of the two algorithm
-- numbers, or an elliptic-curve key of at least 65 bytes, and the verifier accepted
-- the bytes that the code builds from it.
pub verify_signature_sound :
    (verify : Algorithm → List ℕ → List ℕ → List ℕ → Bool) (k : CoseKey)
    (message signature : List ℕ)
    → verify_signature verify k message signature ≡ true
    → ((k.kty ≡ 1)
        × ((k.alg ≡ negsuc 256) ⊎ (k.alg ≡ negsuc 258))
        × (verify rsa_pkcs1_2048_8192_sha256 (asn1_of k) message signature ≡ true))
      ⊎ ((k.kty ≡ 2)
          × (65 ≤ length k.n)
          × (verify (curve_of k.crv) (point_of k) message signature ≡ true))
unfolding verify_signature
verify_signature_sound verify k message signature h = ground arith

-- So such data never gives a key under which an elliptic-curve signature is valid, and an RSA
-- signature is checked against an empty modulus and exponent.
pub blank_key_signature :
    (verify : Algorithm → List ℕ → List ℕ → List ℕ → Bool) (bytes : List ℕ) (k : CoseKey)
    (message signature : List ℕ)
    → HasNoWideNegative bytes
    → from_cbor bytes ≡ some k
    → verify_signature verify k message signature ≡ true
    → (k.kty ≡ 1)
      × (verify rsa_pkcs1_2048_8192_sha256 (0x30 ∷ 4 ∷ 0x02 ∷ 0 ∷ 0x02 ∷ 0 ∷ []) message signature
          ≡ true)
unfolding verify_signature asn1_of
blank_key_signature verify bytes k message signature h e valid =
    let blank = from_cbor-IsBlank bytes k h e in ground (arith, blank)
