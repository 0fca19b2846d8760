-- ===== src/Passkey/Bytes.antt =====
-- Byte sequences as `&[u8]`: reading, slicing, and big-endian numbers (`from_be_bytes`).
use rustykvm.Prelude.{
  ℕ, zero, suc, ◌+◌, ◌*◌, ◌/◌, ◌%◌, ◌^◌, ◌≤◌, ◌<◌, ◌≡◌, refl, ap, Bool, List, [], ◌∷◌, ◌++◌, arith,
  ◌==◌, length, get_or, take, drop, All, length-take, length-drop,
}

-- `data[i]`, read only below the length.
abbrev pub byte : List ℕ → ℕ → ℕ
byte bytes i = get_or bytes i 0

-- `data[i..i + n]`
abbrev pub slice : List ℕ → ℕ → ℕ → List ℕ
slice bytes i n = take n (drop i bytes)

abbrev pub from_be_bytes : List ℕ → ℕ
from_be_bytes [] = 0
from_be_bytes (b ∷ bs) = b * 256 ^ length bs + from_be_bytes bs

-- The `k` low bytes of `n`, the highest first.
abbrev pub to_be_bytes : ℕ → ℕ → List ℕ
to_be_bytes zero n = []
to_be_bytes (suc k) n = n / 256 ^ k % 256 ∷ to_be_bytes k n

-- `v & (1 << k) != 0`
abbrev pub bit : ℕ → ℕ → Bool
bit v k = v / 2 ^ k % 2 == 1

abbrev pub AreBytes : List ℕ → Type 0
AreBytes = All (λ b. b < 256)

pub byte-append : (xs ys : List ℕ) → byte (xs ++ ys) (length xs) ≡ byte ys 0
byte-append [] ys = refl
byte-append (x ∷ xs) ys = byte-append xs ys

pub drop-append : (xs ys : List ℕ) (i : ℕ) → drop (length xs + i) (xs ++ ys) ≡ drop i ys
drop-append [] ys i = let e : 0 + i ≡ i = omega arith in rw e refl
drop-append (x ∷ xs) ys i =
    let e : suc (length xs) + i ≡ suc (length xs + i) = omega arith in rw e (drop-append xs ys i)

pub drop-append_self : (xs ys : List ℕ) → drop (length xs) (xs ++ ys) ≡ ys
drop-append_self [] ys = refl
drop-append_self (x ∷ xs) ys = drop-append_self xs ys

pub take-append : (xs ys : List ℕ) → take (length xs) (xs ++ ys) ≡ xs
take-append [] ys = refl
take-append (x ∷ xs) ys = ap (λ r. x ∷ r) (take-append xs ys)

-- The bytes between two others, and the byte behind others.
pub slice-append :
    (before mid after : List ℕ) (i n : ℕ)
    → length before ≡ i
    → length mid ≡ n
    → slice (before ++ (mid ++ after)) i n ≡ mid
slice-append before mid after i n b m = rw (← b, ← m, drop-append_self) (take-append mid after)

pub byte-append_behind :
    (before : List ℕ) (b : ℕ) (after : List ℕ) (i : ℕ)
    → length before ≡ i
    → byte (before ++ (b ∷ after)) i ≡ b
byte-append_behind before b after i e = rw (← e) (byte-append before (b ∷ after))

pub byte-drop : (bytes : List ℕ) (i : ℕ) → byte bytes i ≡ byte (drop i bytes) 0
byte-drop bytes zero = refl
byte-drop [] (suc i) = refl
byte-drop (b ∷ bytes) (suc i) = byte-drop bytes i

pub drop_one : (bytes : List ℕ) (i : ℕ) → drop (suc i) bytes ≡ drop 1 (drop i bytes)
drop_one bytes zero = refl
drop_one [] (suc i) = refl
drop_one (b ∷ bytes) (suc i) = drop_one bytes i

pub take_all : (bytes : List ℕ) → take (length bytes) bytes ≡ bytes
take_all [] = refl
take_all (b ∷ bytes) = ap (λ r. b ∷ r) (take_all bytes)

pub length-slice : (bytes : List ℕ) (i n : ℕ) → i + n ≤ length bytes → length (slice bytes i n) ≡ n
length-slice bytes i n h = omega (arith, length-take n (drop i bytes), length-drop i bytes)

pub length-to_be_bytes : (k n : ℕ) → length (to_be_bytes k n) ≡ k
length-to_be_bytes zero n = refl
length-to_be_bytes (suc k) n = ap suc (length-to_be_bytes k n)

pub from_be_bytes-to_be_bytes_2 : (n : ℕ) → n < 2 ^ 16 → from_be_bytes (to_be_bytes 2 n) ≡ n
from_be_bytes-to_be_bytes_2 n h = omega arith

pub from_be_bytes-to_be_bytes_4 : (n : ℕ) → n < 2 ^ 32 → from_be_bytes (to_be_bytes 4 n) ≡ n
from_be_bytes-to_be_bytes_4 n h = omega arith

pub from_be_bytes-to_be_bytes_8 : (n : ℕ) → n < 2 ^ 64 → from_be_bytes (to_be_bytes 8 n) ≡ n
from_be_bytes-to_be_bytes_8 n h = omega arith
