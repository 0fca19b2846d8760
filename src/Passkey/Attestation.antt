-- ===== src/Passkey/Attestation.antt =====
-- server/src/passkey/handlers.rs: `extract_public_key_from_attestation`, and which attestations it reads.
mod Tests
use rustykvm.Prelude.{
  ℕ, zero, suc, ◌+◌, ◌-◌, ◌*◌, ◌/◌, ◌%◌, ◌^◌, ◌≤◌, ◌<◌, min, String, ◌≡◌, refl, sym, ap, ◌∙◌, ◌≢◌,
  ◌↔◌, ◌⊎◌, inl, inr, Bool, true, false, not, ◌&&◌, ◌||◌, Option, none, some, List, [], ◌∷◌, ◌++◌,
  map, arith, eq_iff, str_eq, ltb, leb, ◌==◌, if◌then◌else◌, ltb→lt, lt→ltb, ltb_of_le, leb→le,
  ==_iff, tests, Bool-cases, Option-cases, is_some_and, length, get_elem?, get_elem?-of_lt, get_or,
  take, drop, replicate, any, all, retain, All, sum, sum-append, list_eq, list_eq→eq, list_eq_refl,
  length-append, length-take, length-drop, take-append-drop, length-retain-le,
}
use rustykvm.Prelude.Int.{ℤ, pos, int_eq}
use rustykvm.Passkey.Bytes.{byte, bit}
use rustykvm.Passkey.Cbor.{read_int, read_bytes}
use rustykvm.Passkey.Cbor.Bounds.{read_int_bounds, read_bytes_bounds}
use rustykvm.Passkey.CoseKey.{CoseKey, from_cbor}

-- How the loop ends: on `?`, or with `auth_data_offset`. `out_of_rounds` is the fuel's.
pub data AttestationScan : Type 0 where
  out_of_rounds no_key : AttestationScan
  at : Option ℕ → AttestationScan

-- `auth_data_offset` after one entry; the offset is taken one byte before a value without a length byte.
pub note_value : ℤ → Option (List ℕ) × ℕ → Option ℕ → Option ℕ
note_value key (none, next) at_ = at_
note_value key (some value, next) at_ =
    if int_eq key (pos 2) then some (next - length value - 1) else at_

-- `while offset < attestation_cbor.len()`
pub scan_attestation : ℕ → List ℕ → ℕ → Option ℕ → AttestationScan
unfolding note_value
scan_attestation zero bytes offset at_ = out_of_rounds
scan_attestation (suc fuel) bytes offset at_ =
    let next = (read_int bytes offset).1 in
    let round : AttestationScan = elim ((read_int bytes offset).0) [
      | none ↦ no_key
      | some k ↦
          scan_attestation fuel bytes (read_bytes bytes next).1
            (note_value k (read_bytes bytes next) at_)
    ] in
    if leb (length bytes) offset then at at_ else round

-- The key behind the authenticator data at the offset.
pub key_at : List ℕ → Option CoseKey
key_at auth_data =
    let included = bit (byte auth_data 32) 6 in
    let pk_offset : ℕ = if included then 37 + 16 else 37 in
    if ltb (length auth_data) 37
    then none
    else if included && leb (length auth_data) (37 + 16)
    then none
    else if leb (length auth_data) pk_offset
    then none
    else from_cbor (drop pk_offset auth_data)

pub of_scan : List ℕ → AttestationScan → Option CoseKey
unfolding key_at
of_scan bytes out_of_rounds = none
of_scan bytes no_key = none
of_scan bytes (at none) = none
of_scan bytes (at (some offset)) = key_at (drop offset bytes)

-- One round for each byte is enough.
unfoldable pub extract_public_key_from_attestation : List ℕ → Option CoseKey
unfolding of_scan scan_attestation
extract_public_key_from_attestation bytes =
    if ltb (length bytes) 37 || not (byte bytes 0 == 0xa3)
    then none
    else of_scan bytes (scan_attestation (length bytes) bytes 1 none)

-- The loop ends: with fuel for each byte that is left, the scan is finished.
pub scan_attestation_total :
    (fuel : ℕ) (bytes : List ℕ) (offset : ℕ) (at_ : Option ℕ)
    → offset ≤ length bytes
    → length bytes < offset + fuel
    → scan_attestation fuel bytes offset at_ ≢ out_of_rounds
unfolding scan_attestation
scan_attestation_total zero bytes offset at_ h f = absurd (omega arith)
scan_attestation_total (suc fuel) bytes offset at_ h f =
    elim (Bool-cases (leb (length bytes) offset)) [
      | inl done ↦ rw done (λ e. cc)
      | inr more ↦ elim (Option-cases ((read_int bytes offset).0)) [
        | inl missing ↦ rw (more, missing) (λ e. cc)
        | inr (k, found) ↦
            let (_, inside, moves) = read_int_bounds bytes offset h in
            let next = (read_int bytes offset).1 in
            let (ahead, within, _) = read_bytes_bounds bytes next inside in
            let further : offset < next = moves (rw found (λ e. cc)) in
            rw (more, found)
              (scan_attestation_total fuel bytes (read_bytes bytes next).1
                (note_value k (read_bytes bytes next) at_) within (omega arith))
      ]
    ]

-- A header that is no unsigned integer is refused by the reader of the keys.
read_int_text :
    (bytes : List ℕ) (offset : ℕ) → 28 ≤ byte bytes offset → (read_int bytes offset).0 ≡ none
unfolding read_int
read_int_text bytes offset h = ground arith

scan_refused :
    (fuel : ℕ) (bytes : List ℕ) (offset : ℕ) (at_ : Option ℕ)
    → 0 < fuel
    → offset < length bytes
    → (read_int bytes offset).0 ≡ none
    → scan_attestation fuel bytes offset at_ ≡ no_key
unfolding scan_attestation
scan_refused zero bytes offset at_ f h e = absurd (omega arith)
scan_refused (suc fuel) bytes offset at_ f h e =
    let more : leb (length bytes) offset ≡ false = ground arith in rw (more, e)

-- No key is extracted from an attestation object whose first key has a CBOR header of 28 or more. An
-- attestation object of WebAuthn begins with the text "fmt" or another text, header 0x60 to 0x77.
pub text_keys_refused :
    (bytes : List ℕ) → 28 ≤ byte bytes 1 → extract_public_key_from_attestation bytes ≡ none
unfolding extract_public_key_from_attestation of_scan
text_keys_refused bytes h =
    elim (Bool-cases (ltb (length bytes) 37 || not (byte bytes 0 == 0xa3))) [
      | inl short ↦ rw short
      | inr long ↦
          let n : 37 ≤ length bytes = ground arith in
          let stops =
            scan_refused (length bytes) bytes 1 none (omega arith) (omega arith)
              (read_int_text bytes 1 h) in
          rw (long, stops) refl
    ]
