-- ===== src/Passkey/Cbor/Encoding.antt =====
-- The encoding that `read_int` decodes: CBOR's unsigned integers in their shortest form.
use rustykvm.Prelude.{
  ℕ, ◌+◌, ◌-◌, ◌^◌, ◌<◌, ◌≡◌, ap, ◌∙◌, inl, inr, false, some, List, [], ◌∷◌, ◌++◌, arith, ltb, leb,
  if◌then◌else◌, ltb→lt, Bool-cases, length, length-append,
}
use rustykvm.Prelude.Int.{ℤ, pos, as_signed}
use mathlib.Core.List.{append_assoc}
use rustykvm.Passkey.Bytes.{
  byte, slice, from_be_bytes, to_be_bytes, byte-append, drop-append_self, take-append,
  from_be_bytes-to_be_bytes_2, from_be_bytes-to_be_bytes_4, from_be_bytes-to_be_bytes_8,
}
use rustykvm.Passkey.Cbor.{read_be, read_int}

-- RFC 8949, major type 0.
pub write_int : ℕ → List ℕ
write_int n =
    if ltb n 24
    then n ∷ []
    else if ltb n (2 ^ 8)
    then 24 ∷ n ∷ []
    else if ltb n (2 ^ 16)
    then 25 ∷ to_be_bytes 2 n
    else if ltb n (2 ^ 32)
    then 26 ∷ to_be_bytes 4 n
    else 27 ∷ to_be_bytes 8 n

-- The argument of a header, wherever it stands.
read_be-append :
    (cast : ℕ → ℤ) (before arg rest : List ℕ)
    → 0 < length arg
    → read_be cast (length arg) (before ++ (arg ++ rest)) (length before)
      ≡ (some (cast (from_be_bytes arg)), length before + length arg)
unfolding read_be
read_be-append cast before arg rest h =
    let n : length (before ++ (arg ++ rest)) ≡ length before + (length arg + length rest) =
      omega (arith, length-append before (arg ++ rest), length-append arg rest) in
    let room : leb (length (before ++ (arg ++ rest))) (length before + (length arg - 1)) ≡ false =
      ground (arith, n) in
    let d : slice (before ++ (arg ++ rest)) (length before) (length arg) ≡ arg =
      rw drop-append_self (take-append arg rest) in
    rw (room, d)

-- The header of an integer, and where its argument is read.
record Headers (bytes : List ℕ) (offset : ℕ) : Type 0 where
  small :
      byte bytes offset < 24 → read_int bytes offset ≡ (some (pos (byte bytes offset)), offset + 1)
  one : byte bytes offset ≡ 24 → read_int bytes offset ≡ read_be pos 1 bytes (offset + 1)
  two : byte bytes offset ≡ 25 → read_int bytes offset ≡ read_be pos 2 bytes (offset + 1)
  four : byte bytes offset ≡ 26 → read_int bytes offset ≡ read_be pos 4 bytes (offset + 1)
  eight :
      byte bytes offset ≡ 27 → read_int bytes offset ≡ read_be (as_signed 63) 8 bytes (offset + 1)

Headers-of_lt : (bytes : List ℕ) (offset : ℕ) → offset < length bytes → Headers bytes offset
unfolding read_int
Headers-of_lt bytes offset h = record {
  small = λ e. ground arith;
  one = λ e. ground arith;
  two = λ e. ground arith;
  four = λ e. ground arith;
  eight = λ e. ground arith;
}

Headers-append :
    (before : List ℕ) (h : ℕ) (more : List ℕ) → Headers (before ++ (h ∷ more)) (length before)
Headers-append before h more =
    Headers-of_lt (before ++ (h ∷ more)) (length before)
      (omega (arith, length-append before (h ∷ more)))

-- The argument behind a header `h`.
read_be-header :
    (cast : ℕ → ℤ) (before : List ℕ) (h : ℕ) (arg rest : List ℕ)
    → 0 < length arg
    → read_be cast (length arg) (before ++ (h ∷ (arg ++ rest))) (length before + 1)
      ≡ (some (cast (from_be_bytes arg)), length before + length (h ∷ arg))
read_be-header cast before h arg rest p =
    let n : length (before ++ h ∷ []) ≡ length before + 1 =
      omega (arith, length-append before (h ∷ [])) in
    let e : length before + length (h ∷ arg) ≡ length before + 1 + length arg = omega arith in
    let r = read_be-append cast (before ++ h ∷ []) arg rest p in
    rw (e, ← n, ← append_assoc before (h ∷ []) (arg ++ rest)) r

module _ (before rest : List ℕ) where
  -- The bytes behind a header, and the header there.
  byte_at : (h : ℕ) (more : List ℕ) → byte (before ++ (h ∷ more)) (length before) ≡ h
  byte_at h more = byte-append before (h ∷ more)

  read_small :
      (n : ℕ)
      → n < 24
      → read_int (before ++ (n ∷ rest)) (length before) ≡ (some (pos n), length before + 1)
  read_small n h =
      (Headers-append before n rest).small (rw (byte_at n rest) h)
      ∙ ap (λ b. (some (pos b), length before + 1)) (byte_at n rest)

  -- An argument of one, two, four or eight bytes behind its header.
  read_one :
      (b : ℕ)
      → read_int (before ++ (24 ∷ (b ∷ [] ++ rest))) (length before)
        ≡ (some (pos (from_be_bytes (b ∷ []))), length before + 2)
  read_one b =
      (Headers-append before 24 (b ∷ [] ++ rest)).one (byte_at 24 (b ∷ [] ++ rest))
      ∙ read_be-header pos before 24 (b ∷ []) rest (omega arith)

  read_two :
      (n : ℕ)
      → read_int (before ++ (25 ∷ (to_be_bytes 2 n ++ rest))) (length before)
        ≡ (some (pos (from_be_bytes (to_be_bytes 2 n))), length before + 3)
  read_two n =
      (Headers-append before 25 (to_be_bytes 2 n ++ rest)).two
        (byte_at 25 (to_be_bytes 2 n ++ rest))
      ∙ read_be-header pos before 25 (to_be_bytes 2 n) rest (omega arith)

  read_four :
      (n : ℕ)
      → read_int (before ++ (26 ∷ (to_be_bytes 4 n ++ rest))) (length before)
        ≡ (some (pos (from_be_bytes (to_be_bytes 4 n))), length before + 5)
  read_four n =
      (Headers-append before 26 (to_be_bytes 4 n ++ rest)).four
        (byte_at 26 (to_be_bytes 4 n ++ rest))
      ∙ read_be-header pos before 26 (to_be_bytes 4 n) rest (omega arith)

  read_eight :
      (n : ℕ)
      → read_int (before ++ (27 ∷ (to_be_bytes 8 n ++ rest))) (length before)
        ≡ (some (as_signed 63 (from_be_bytes (to_be_bytes 8 n))), length before + 9)
  read_eight n =
      (Headers-append before 27 (to_be_bytes 8 n ++ rest)).eight
        (byte_at 27 (to_be_bytes 8 n ++ rest))
      ∙ read_be-header (as_signed 63) before 27 (to_be_bytes 8 n) rest (omega arith)

as_signed-pos : (n : ℕ) → n < 2 ^ 63 → as_signed 63 n ≡ pos n
as_signed-pos n h = ground arith

-- What is written reads back, wherever it stands, and the offset is left behind it.
pub read_int-write_int :
    (before rest : List ℕ) (n : ℕ)
    → n < 2 ^ 63
    → read_int (before ++ (write_int n ++ rest)) (length before)
      ≡ (some (pos n), length before + length (write_int n))
unfolding write_int
read_int-write_int before rest n h = elim (Bool-cases (ltb n 24)) [
  | inl p ↦ rw p (read_small before rest n (ltb→lt _ _ p))
  | inr p ↦ elim (Bool-cases (ltb n (2 ^ 8))) [
    | inl q ↦
        rw (p, q)
          (read_one before rest n ∙ ap (λ m. (some (pos m), length before + 2)) (omega arith))
    | inr q ↦ elim (Bool-cases (ltb n (2 ^ 16))) [
      | inl r ↦
          rw (p, q, r)
            (read_two before rest n
              ∙ ap (λ m. (some (pos m), length before + 3))
                  (from_be_bytes-to_be_bytes_2 n (ltb→lt _ _ r)))
      | inr r ↦ elim (Bool-cases (ltb n (2 ^ 32))) [
        | inl s ↦
            rw (p, q, r, s)
              (read_four before rest n
                ∙ ap (λ m. (some (pos m), length before + 5))
                    (from_be_bytes-to_be_bytes_4 n (ltb→lt _ _ s)))
        | inr s ↦
            rw (p, q, r, s)
              (read_eight before rest n
                ∙ ap (λ z. (some z, length before + 9))
                    (ap (as_signed 63) (from_be_bytes-to_be_bytes_8 n (omega arith))
                      ∙ as_signed-pos n h))
      ]
    ]
  ]
]
