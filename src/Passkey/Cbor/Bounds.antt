-- ===== src/Passkey/Cbor/Bounds.antt =====
-- How far the readers move, and which headers they take.
use rustykvm.Prelude.{ℕ, ◌+◌, ◌^◌, ◌≤◌, ◌<◌, ◌≡◌, ◌≢◌, ◌⊎◌, none, some, List, arith, length}
use rustykvm.Prelude.Int.{negsuc}
use rustykvm.Passkey.Bytes.{byte, slice, from_be_bytes}
use rustykvm.Passkey.Cbor.{read_int, read_bytes}

-- A reader never moves back, and never past the end of the data.
pub read_int_bounds :
    (bytes : List ℕ) (offset : ℕ)
    → offset ≤ length bytes
    → (offset ≤ (read_int bytes offset).1)
      × ((read_int bytes offset).1 ≤ length bytes)
      × ((read_int bytes offset).0 ≢ none → offset < (read_int bytes offset).1)
unfolding read_int
read_int_bounds bytes offset h = ground arith

pub read_bytes_bounds :
    (bytes : List ℕ) (offset : ℕ)
    → offset ≤ length bytes
    → (offset ≤ (read_bytes bytes offset).1)
      × ((read_bytes bytes offset).1 ≤ length bytes)
      × ((read_bytes bytes offset).0 ≢ none → offset < (read_bytes bytes offset).1)
unfolding read_bytes
read_bytes_bounds bytes offset h = ground arith

-- What `read_bytes` returns ends where the offset is left, and is as long as its header says: a byte
-- up to 23 is the length itself, and 65 is followed by a length byte. There is no other header.
pub read_bytes_value :
    (bytes : List ℕ) (offset : ℕ) (value : List ℕ)
    → (read_bytes bytes offset).0 ≡ some value
    → ((byte bytes offset ≤ 23)
        × (value ≡ slice bytes (offset + 1) (byte bytes offset))
        × ((read_bytes bytes offset).1 ≡ offset + 1 + byte bytes offset))
      ⊎ ((byte bytes offset ≡ 65)
          × (value ≡ slice bytes (offset + 2) (byte bytes (offset + 1)))
          × ((read_bytes bytes offset).1 ≡ offset + 2 + byte bytes (offset + 1)))
unfolding read_bytes
read_bytes_value bytes offset value h = ground arith

-- An integer that is read is negative only behind the header 27 with the top bit of its eight bytes
-- set; the headers 32 to 59 of CBOR's negative integers are refused.
pub read_int_negative :
    (bytes : List ℕ) (offset m : ℕ)
    → (read_int bytes offset).0 ≡ some (negsuc m)
    → (byte bytes offset ≡ 27) × (2 ^ 63 ≤ from_be_bytes (slice bytes (offset + 1) 8))
unfolding read_int
read_int_negative bytes offset m h = ground arith
