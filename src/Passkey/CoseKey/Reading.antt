-- ===== src/Passkey/CoseKey/Reading.antt =====
-- The scan of a key's CBOR map ends, and which labels it can give.
use rustykvm.Prelude.{
  ℕ, zero, suc, ◌+◌, ◌≤◌, ◌<◌, ◌≡◌, ap, ◌≢◌, inl, inr, Option, none, some, List, ◌∷◌, arith, leb,
  Bool-cases, Option-cases, length,
}
use rustykvm.Prelude.Int.{ℤ}
use rustykvm.Passkey.Cbor.{read_int, read_bytes}
use rustykvm.Passkey.Cbor.Bounds.{read_int_bounds, read_bytes_bounds}
use rustykvm.Passkey.CoseKey.{Fields, unfinished, with_value, with_key, read_field, read_fields}

with_value-some :
    (key : ℤ) (r : Option (List ℕ) × ℕ) {k : ℤ} {v : List ℕ}
    → (with_value key r).0 ≡ some (k, v)
    → (key ≡ k) × (r.0 ≡ some v) × ((with_value key r).1 ≡ r.1)
unfolding with_value
with_value-some key (none, last) h = cc
with_value-some key (some value, last) h = ground arith

with_key-some :
    (bytes : List ℕ) (r : Option ℤ × ℕ) {k : ℤ} {v : List ℕ}
    → (with_key bytes r).0 ≡ some (k, v)
    → (r.0 ≡ some k)
      × ((read_bytes bytes r.1).0 ≡ some v)
      × ((with_key bytes r).1 ≡ (read_bytes bytes r.1).1)
unfolding with_key
with_key-some bytes (none, next) h = cc
with_key-some bytes (some key, next) h =
    let (a, b, c) = with_value-some key (read_bytes bytes next) h in (ap some a, b, c)

-- A field that is read: its parts, and the move.
pub read_field-some :
    (bytes : List ℕ) (offset : ℕ) {k : ℤ} {v : List ℕ}
    → (read_field bytes offset).0 ≡ some (k, v)
    → ((read_int bytes offset).0 ≡ some k)
      × ((read_bytes bytes (read_int bytes offset).1).0 ≡ some v)
      × ((read_field bytes offset).1 ≡ (read_bytes bytes (read_int bytes offset).1).1)
unfolding read_field
read_field-some bytes offset h = with_key-some bytes (read_int bytes offset) h

read_field_moves :
    (bytes : List ℕ) (offset : ℕ) {k : ℤ} {v : List ℕ}
    → offset ≤ length bytes
    → (read_field bytes offset).0 ≡ some (k, v)
    → (offset < (read_field bytes offset).1) × ((read_field bytes offset).1 ≤ length bytes)
read_field_moves bytes offset h e =
    let (key, value, last) = read_field-some bytes offset e in
    let i = read_int_bounds bytes offset h in
    let b = read_bytes_bounds bytes (read_int bytes offset).1 i.1 in
    ground (arith, key, value, last, i, b)

-- The loop of `from_cbor` ends: with fuel for each byte that is left, the scan is finished.
pub read_fields_total :
    (fuel : ℕ) (bytes : List ℕ) (offset : ℕ) (m : Fields)
    → offset ≤ length bytes
    → length bytes < offset + fuel
    → read_fields fuel bytes offset m ≢ unfinished
unfolding read_fields
read_fields_total zero bytes offset m h f = absurd (omega arith)
read_fields_total (suc fuel) bytes offset m h f = elim (Bool-cases (leb (length bytes) offset)) [
  | inl done ↦ rw done (λ e. cc)
  | inr more ↦ elim (Option-cases ((read_field bytes offset).0)) [
    | inl missing ↦ rw (more, missing) (λ e. cc)
    | inr ((k, v), found) ↦
        let (moved, inside) = read_field_moves bytes offset h found in
        rw (more, found)
          (read_fields_total fuel bytes (read_field bytes offset).1 ((k, v) ∷ m) inside
            (omega arith))
  ]
]
