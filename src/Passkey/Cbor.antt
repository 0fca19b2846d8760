-- ===== src/Passkey/Cbor.antt =====
-- server/src/passkey/cbor.rs: the two readers. Each takes the data and the offset, and returns its
-- value, or `none`, with the offset that it leaves behind.
pub mod Bounds
pub mod Encoding
mod Tests
use rustykvm.Prelude.{
  ℕ, zero, suc, ◌+◌, ◌-◌, ◌*◌, ◌/◌, ◌%◌, ◌^◌, ◌≤◌, ◌<◌, min, String, ◌≡◌, refl, sym, ap, ◌∙◌, ◌≢◌,
  ◌↔◌, ◌⊎◌, inl, inr, Bool, true, false, not, ◌&&◌, ◌||◌, Option, none, some, List, [], ◌∷◌, ◌++◌,
  map, arith, eq_iff, str_eq, ltb, leb, ◌==◌, if◌then◌else◌, ltb→lt, lt→ltb, ltb_of_le, leb→le,
  ==_iff, tests, Bool-cases, Option-cases, is_some_and, length, get_elem?, get_elem?-of_lt, get_or,
  take, drop, replicate, any, all, retain, All, sum, sum-append, list_eq, length-append,
  length-take, length-drop, take-append-drop, length-retain-le,
}
use rustykvm.Prelude.Int.{ℤ, pos, as_signed}
use rustykvm.Passkey.Bytes.{byte, slice, from_be_bytes}

-- `n` bytes, big-endian, as the argument of a header.
read_be : (ℕ → ℤ) → ℕ → List ℕ → ℕ → Option ℤ × ℕ
read_be cast n bytes offset =
    if leb (length bytes) (offset + (n - 1))
    then (none, offset)
    else (some (cast (from_be_bytes (slice bytes offset n))), offset + n)

unfoldable pub read_int : List ℕ → ℕ → Option ℤ × ℕ
unfolding read_be
read_int bytes offset =
    if leb (length bytes) offset
    then (none, offset)
    else (let first = byte bytes offset in
        let next = offset + 1 in
        if leb first 23
        then (some (pos first), next)
        else if first == 24
        then read_be pos 1 bytes next
        else if first == 25
        then read_be pos 2 bytes next
        else if first == 26
        then read_be pos 4 bytes next
        else if first == 27
        then read_be (as_signed 63) 8 bytes next
        else (none, next))

-- `len` bytes from the offset on.
read_slice : ℕ → List ℕ → ℕ → Option (List ℕ) × ℕ
read_slice len bytes offset =
    if ltb (length bytes) (offset + len)
    then (none, offset)
    else (some (slice bytes offset len), offset + len)

unfoldable pub read_bytes : List ℕ → ℕ → Option (List ℕ) × ℕ
unfolding read_slice
read_bytes bytes offset =
    if leb (length bytes) offset
    then (none, offset)
    else (let first = byte bytes offset in
        let next = offset + 1 in
        if leb first 23
        then read_slice first bytes next
        else if first == 64
        then (none, next)
        else if first == 65
        then (if leb (length bytes) next
            then (none, next)
            else read_slice (byte bytes next) bytes (next + 1))
        else (none, next))
