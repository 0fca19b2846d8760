-- ===== src/Auth/Password.antt =====
-- server/src/utils.rs: `decrypt_password` and `derive_key_iv`, which read a password that CryptoJS
-- encrypted. URL and base64 decoding, MD5, AES and the file of the secret key are parameters.
mod Tests
use rustykvm.Prelude.{
  ℕ, zero, suc, ◌+◌, ◌≤◌, ◌<◌, String, ◌≡◌, inl, inr, not, ◌||◌, Option, none, some, List, [], ◌∷◌,
  ◌++◌, arith, ltb, leb, ◌==◌, if◌then◌else◌, Bool-cases, length, take, drop, list_eq,
  length-append, length-take, length-drop,
}
use rustykvm.Prelude.{utf8_length}

pub record PasswordLibrary : Type 0 where
  pub url_decode : String → Option String
  pub decode : String → Option (List ℕ)
  pub md5 : List ℕ → List ℕ
  -- AES-256 in CBC mode with PKCS #7 padding, for a key and an initialisation vector
  pub decrypt_padded : List ℕ → List ℕ → List ℕ → Option (List ℕ)
  pub from_utf8_lossy : List ℕ → String
  -- the answer of `get_secret_key`
  pub secret_key : Option (List ℕ)

abbrev pub or_same : Option String → String → String
or_same none s = s
or_same (some t) s = t

module _ (lib : PasswordLibrary) where
  -- `while derived_bytes.len() < key_len + iv_len`
  pub derive_bytes : ℕ → ℕ → List ℕ → List ℕ → List ℕ → List ℕ
  derive_bytes zero size seed last_digest derived = derived
  derive_bytes (suc fuel) size seed last_digest derived =
      let digest = lib.md5 (last_digest ++ seed) in
      let rest = derive_bytes fuel size seed digest (derived ++ digest) in
      if leb size (length derived) then derived else rest

  -- One round for each byte wanted is enough where a digest has a byte.
  pub derive_key_iv : List ℕ → List ℕ → ℕ → ℕ → List ℕ × List ℕ
  unfolding derive_bytes
  derive_key_iv password salt key_len iv_len =
      let size = key_len + iv_len in
      let derived = derive_bytes size size (password ++ salt) [] [] in
      (take key_len derived, take iv_len (drop key_len derived))

  -- The bytes behind "Salted__" and the salt, decrypted.
  pub decrypt_salted : List ℕ → Option String
  unfolding derive_key_iv
  decrypt_salted bytes =
      if ltb (length bytes) 16
        || not (list_eq (take 8 bytes) (b'S' ∷ b'a' ∷ b'l' ∷ b't' ∷ b'e' ∷ b'd' ∷ b'_' ∷ b'_' ∷ []))
      then none
      else (elim lib.secret_key [
        | none ↦ none
        | some secret ↦
            let (key, iv) = derive_key_iv secret (take 8 (drop 8 bytes)) 32 16 in
            (elim (lib.decrypt_padded key iv (drop 16 bytes)) [
              | none ↦ none
              | some plain ↦ some (lib.from_utf8_lossy plain)
            ])
      ])

  unfoldable pub decrypt_password : String → Option String
  unfolding decrypt_salted
  decrypt_password ciphertext =
      if utf8_length ciphertext == 0
      then some ""
      else (elim (lib.decode (or_same (lib.url_decode ciphertext) ciphertext)) [
        | none ↦ none
        | some bytes ↦ decrypt_salted bytes
      ])

  length-derive_bytes :
      (fuel size : ℕ) (seed last_digest derived : List ℕ)
      → ((bytes : List ℕ) → 0 < length (lib.md5 bytes))
      → size ≤ length derived + fuel
      → size ≤ length (derive_bytes fuel size seed last_digest derived)
  unfolding derive_bytes
  length-derive_bytes zero size seed last_digest derived h enough = omega (arith, enough)
  length-derive_bytes (suc fuel) size seed last_digest derived h enough =
      let digest = lib.md5 (last_digest ++ seed) in
      let more = length-append derived digest in
      elim (Bool-cases (leb size (length derived))) [
        | inl done ↦ rw done (ground arith)
        | inr short ↦ rw short (
            length-derive_bytes fuel size seed digest (derived ++ digest) h
              (omega (arith, more, h (last_digest ++ seed), enough)))
      ]

  -- Where a digest has a byte or more, the key and the initialisation vector that are derived have the
  -- lengths that are asked for, for every secret and salt.
  pub length-derive_key_iv :
      (password salt : List ℕ) (key_len iv_len : ℕ)
      → ((bytes : List ℕ) → 0 < length (lib.md5 bytes))
      → (length (derive_key_iv password salt key_len iv_len).0 ≡ key_len)
        × (length (derive_key_iv password salt key_len iv_len).1 ≡ iv_len)
  unfolding derive_key_iv
  length-derive_key_iv password salt key_len iv_len h =
      let size = key_len + iv_len in
      let derived = derive_bytes size size (password ++ salt) [] [] in
      let long = length-derive_bytes size size (password ++ salt) [] [] h (omega arith) in
      (
        omega (arith, long, length-take key_len derived),
        omega (arith, long, length-take iv_len (drop key_len derived), length-drop key_len derived),
      )
