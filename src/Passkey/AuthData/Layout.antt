-- ===== src/Passkey/AuthData/Layout.antt =====
-- The layout that `parse` reads: an independent writer, and the round trip.
use rustykvm.Prelude.{
  ℕ, ◌+◌, ◌^◌, ◌<◌, ◌≡◌, sym, ap, ◌∙◌, inl, inr, true, false, some, List, [], ◌∷◌, ◌++◌, arith, ltb,
  leb, if◌then◌else◌, Bool-cases, length, take, drop, length-append,
}
use mathlib.Core.List.{append_assoc}
use rustykvm.Passkey.Bytes.{
  byte-drop, drop_one, take_all, slice-append, byte-append_behind, byte, slice, from_be_bytes,
  to_be_bytes, bit, drop-append_self, take-append, length-to_be_bytes, from_be_bytes-to_be_bytes_4,
}
use rustykvm.Passkey.AuthData.{parse, extensions_of}

-- The 37 bytes of WebAuthn, then the extensions behind their length if the flags announce them.
pub print : List ℕ → ℕ → ℕ → List ℕ → List ℕ
print hash flags counter extensions =
    hash
    ++ (flags
        ∷ (to_be_bytes 4 counter ++ (if bit flags 7 then length extensions ∷ extensions else [])))

-- The parts of any data that begin with a hash, the flags and a counter.
module _ (hash : List ℕ) (flags counter : ℕ) (rest : List ℕ) (h : length hash ≡ 32) where
  abbrev whole : List ℕ
  whole = hash ++ (flags ∷ (to_be_bytes 4 counter ++ rest))

  length-whole : length whole ≡ 37 + length rest
  length-whole = omega (
    arith,
    h,
    length-append hash (flags ∷ (to_be_bytes 4 counter ++ rest)),
    length-append (to_be_bytes 4 counter) rest,
    length-to_be_bytes 4 counter,
  )

  hash_of : slice whole 0 32 ≡ hash
  hash_of = rw (← h) (take-append hash (flags ∷ (to_be_bytes 4 counter ++ rest)))

  flags_of : byte whole 32 ≡ flags
  flags_of = byte-append_behind hash flags (to_be_bytes 4 counter ++ rest) 32 h

  counter_of : counter < 2 ^ 32 → from_be_bytes (slice whole 33 4) ≡ counter
  counter_of c =
      let behind : length (hash ++ flags ∷ []) ≡ 33 =
        omega (arith, h, length-append hash (flags ∷ [])) in
      let s =
        slice-append (hash ++ flags ∷ []) (to_be_bytes 4 counter) rest 33 4 behind
          (length-to_be_bytes 4 counter) in
      rw (← append_assoc hash (flags ∷ []) (to_be_bytes 4 counter ++ rest), s)
        (from_be_bytes-to_be_bytes_4 counter c)

  rest_of : drop 37 whole ≡ rest
  rest_of =
      let before = hash ++ (flags ∷ to_be_bytes 4 counter) in
      let n : length before ≡ 37 =
        omega (arith, h, length-append hash (flags ∷ to_be_bytes 4 counter)) in
      let e : whole ≡ before ++ rest =
        sym (append_assoc hash (flags ∷ to_be_bytes 4 counter) rest) in
      rw (e, ← n) (drop-append_self before rest)

extensions_of-print :
    (hash : List ℕ) (flags counter : ℕ) (extensions : List ℕ)
    → length hash ≡ 32
    → extensions_of flags (print hash flags counter extensions)
      ≡ (if bit flags 7 then extensions else [])
unfolding extensions_of print
extensions_of-print hash flags counter extensions h = elim (Bool-cases (bit flags 7)) [
  | inl announced ↦
      let rest = length extensions ∷ extensions in
      let all_bytes = whole hash flags counter rest h in
      let n : ltb 37 (length all_bytes) ≡ true =
        ground (arith, length-whole hash flags counter rest h) in
      let b : byte all_bytes 37 ≡ length extensions =
        byte-drop all_bytes 37 ∙ ap (λ r. byte r 0) (rest_of hash flags counter rest h) in
      let fits : leb (38 + length extensions) (length all_bytes) ≡ true =
        ground (arith, length-whole hash flags counter rest h) in
      let s : slice all_bytes 38 (length extensions) ≡ extensions =
        ap (take (length extensions))
          (drop_one all_bytes 37 ∙ ap (drop 1) (rest_of hash flags counter rest h))
        ∙ take_all extensions in
      rw (announced, n, b, fits, s)
  | inr absent ↦ rw absent
]

-- What was written by the layout is read back, field by field: without the extension flag there are
-- no extensions, and with it they are the bytes behind the length.
pub parse-print :
    (hash : List ℕ) (flags counter : ℕ) (extensions : List ℕ)
    → length hash ≡ 32
    → counter < 2 ^ 32
    → parse (print hash flags counter extensions)
      ≡ some (record {
        rp_id_hash = hash;
        flags = flags;
        counter = counter;
        attested_credential_included = bit flags 6;
        extensions = if bit flags 7 then extensions else [];
      })
unfolding parse print
parse-print hash flags counter extensions h c =
    let rest : List ℕ = if bit flags 7 then length extensions ∷ extensions else [] in
    let long : ltb (length (print hash flags counter extensions)) 37 ≡ false =
      ground (arith, length-whole hash flags counter rest h) in
    let e = extensions_of-print hash flags counter extensions h in
    rw (
      long,
      hash_of hash flags counter rest h,
      flags_of hash flags counter rest h,
      counter_of hash flags counter rest h c,
      e,
    )
