-- ===== src/Passkey/CoseKey.antt =====
-- server/src/passkey/models.rs and crypto.rs: the public key of a credential, read from CBOR, and
-- the choice of the verifier. `ring`'s verification is a parameter.
pub mod Reading
pub mod Verifying
mod Tests
use rustykvm.Prelude.{
  ℕ, zero, suc, ◌+◌, ◌-◌, ◌*◌, ◌/◌, ◌%◌, ◌^◌, ◌≤◌, ◌<◌, min, String, ◌≡◌, refl, sym, ap, ◌∙◌, ◌≢◌,
  ◌↔◌, ◌⊎◌, inl, inr, Bool, true, false, not, ◌&&◌, ◌||◌, Option, none, some, List, [], ◌∷◌, ◌++◌,
  map, arith, eq_iff, str_eq, ltb, leb, ◌==◌, if◌then◌else◌, ltb→lt, lt→ltb, ltb_of_le, leb→le,
  ==_iff, tests, Bool-cases, Option-cases, is_some_and, length, get_elem?, get_elem?-of_lt, get_or,
  take, drop, replicate, any, all, retain, All, sum, sum-append, list_eq, length-append,
  length-take, length-drop, take-append-drop, length-retain-le,
}
use rustykvm.Prelude.Int.{ℤ, pos, negsuc, int_eq, as_signed}
use rustykvm.Passkey.Bytes.{byte, slice, from_be_bytes}
use rustykvm.Passkey.Cbor.{read_int, read_bytes}

pub record CoseKey : Type 0 where
  pub kty : ℕ
  pub alg : ℤ
  pub n : List ℕ
  pub e : List ℕ
  pub crv : Option ℕ

-- `HashMap<i64, Vec<u8>>`: the newest entry of a key stands first and is the one that counts.
abbrev pub Fields : Type 0
Fields = List (ℤ × List ℕ)

pub get : ℤ → Fields → Option (List ℕ)
get k [] = none
get k ((j, v) ∷ m) = if int_eq j k then some v else get k m

-- `cloned().unwrap_or_default()`
abbrev pub or_empty : Option (List ℕ) → List ℕ
or_empty none = []
or_empty (some v) = v

-- How a scan of the data ends; `unfinished` is the fuel's, and is never reached.
pub data Scan : Type 0 where
  unfinished refused : Scan
  scanned : Fields → Scan

-- One round of the loop: the key, then the value, each with `?`.
pub with_value : ℤ → Option (List ℕ) × ℕ → Option (ℤ × List ℕ) × ℕ
with_value key (none, last) = (none, last)
with_value key (some value, last) = (some (key, value), last)

pub with_key : List ℕ → Option ℤ × ℕ → Option (ℤ × List ℕ) × ℕ
with_key bytes (none, next) = (none, next)
with_key bytes (some key, next) = with_value key (read_bytes bytes next)

unfoldable pub read_field : List ℕ → ℕ → Option (ℤ × List ℕ) × ℕ
unfolding with_key with_value
read_field bytes offset = with_key bytes (read_int bytes offset)

-- `while offset < data.len()`
pub read_fields : ℕ → List ℕ → ℕ → Fields → Scan
read_fields zero bytes offset m = unfinished
read_fields (suc fuel) bytes offset m =
    let round : Scan = elim ((read_field bytes offset).0) [
      | none ↦ refused
      | some field ↦ read_fields fuel bytes (read_field bytes offset).1 (field ∷ m)
    ] in
    if leb (length bytes) offset then scanned m else round

-- The key that the entries make: labels 1, 3, -1 and -2.
pub key_of : Fields → CoseKey
unfolding get
key_of m =
    let kty = or_empty (get (pos 1) m) in
    let alg = or_empty (get (pos 3) m) in
    record {
      kty = get_or kty 0 0;
      alg = if leb 4 (length alg) then as_signed 31 (from_be_bytes (take 4 alg)) else pos 0;
      n = or_empty (get (negsuc 0) m);
      e = or_empty (get (negsuc 1) m);
      crv = elim (get (negsuc 0) m) [ none ↦ none | some v ↦ get_elem? v 0 ];
    }

pub finish : Scan → Option CoseKey
finish unfinished = none
finish refused = none
finish (scanned m) = some (key_of m)

-- One round for each byte, and one more, are enough.
unfoldable pub from_cbor : List ℕ → Option CoseKey
unfolding read_fields finish key_of
from_cbor bytes =
    if leb (length bytes) 0 || not (byte bytes 0 == 0xa1)
    then none
    else finish (read_fields (length bytes) bytes 1 [])

-- The algorithms of `ring::signature` that the code names.
pub data Algorithm : Type 0 where
  rsa_pkcs1_2048_8192_sha256 ecdsa_p256_sha256_asn1 ecdsa_p384_sha384_asn1 : Algorithm

-- The RSA key as the code writes it.
pub asn1_of : CoseKey → List ℕ
asn1_of k =
    let key_size = length k.n in
    let e_len = length k.e in
    0x30
    ∷ (key_size + e_len + 4 + 2 - 2) % 256
    ∷ 0x02
    ∷ e_len % 256
    ∷ (k.e ++ (0x02 ∷ key_size % 256 ∷ k.n))

pub point_of : CoseKey → List ℕ
point_of k = 0x04 ∷ (slice k.n 1 32 ++ slice k.n 33 32)

pub curve_of : Option ℕ → Algorithm
curve_of none = ecdsa_p256_sha256_asn1
curve_of (some c) = if c == 8 then ecdsa_p384_sha384_asn1 else ecdsa_p256_sha256_asn1

module _ (verify : Algorithm → List ℕ → List ℕ → List ℕ → Bool) where
  unfoldable pub verify_signature : CoseKey → List ℕ → List ℕ → Bool
  unfolding curve_of
  verify_signature k message signature =
      if k.kty == 1
      then (if not (int_eq k.alg (negsuc 256)) && not (int_eq k.alg (negsuc 258))
          then false
          else verify rsa_pkcs1_2048_8192_sha256 (asn1_of k) message signature)
      else if k.kty == 2
      then (if ltb (length k.n) 65
          then false
          else verify (curve_of k.crv) (point_of k) message signature)
      else false
