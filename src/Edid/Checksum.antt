-- ===== src/Edid/Checksum.antt =====
-- What `validate_edid` accepts.
use rustykvm.Prelude.{
  ℕ, zero, suc, ◌+◌, ◌%◌, ◌<◌, String, ◌≡◌, refl, sym, ap, ◌∙◌, ◌↔◌, Bool, true, false, not, List,
  [], ◌∷◌, arith, ◌==◌, if◌then◌else◌, ==_iff, length, take, drop, sum, list_eq, list_eq→eq,
  length-drop,
}
use mathlib.Core.Path.{subst}
use rustykvm.Prelude.Result.{Result, ok, err}
use rustykvm.Passkey.Bytes.{byte, slice, AreBytes, take_all}
use rustykvm.Edid.{edid_size, edid_header, wrapping_sum, checksum_of, validate_edid}

wrapping_sum_lem : (acc : ℕ) (bs : List ℕ) → acc < 256 → wrapping_sum acc bs ≡ (acc + sum bs) % 256
unfolding wrapping_sum
wrapping_sum_lem acc [] h = omega arith
wrapping_sum_lem acc (b ∷ bs) h = omega (arith, wrapping_sum_lem ((acc + b) % 256) bs (omega arith))

sum-take : (n : ℕ) (xs : List ℕ) → sum (take (suc n) xs) ≡ sum (take n xs) + byte xs n
sum-take zero [] = refl
sum-take zero (x ∷ xs) = omega arith
sum-take (suc n) [] = refl
sum-take (suc n) (x ∷ xs) = omega (arith, sum-take n xs)

All-get : (xs : List ℕ) (n : ℕ) → AreBytes xs → byte xs n < 256
All-get [] n h = omega arith
All-get (x ∷ xs) zero (p, h) = p
All-get (x ∷ xs) (suc n) (p, h) = All-get xs n h

byte-drop_add : (n i : ℕ) (xs : List ℕ) → byte (drop n xs) i ≡ byte xs (n + i)
byte-drop_add zero i xs = let e : 0 + i ≡ i = omega arith in rw e refl
byte-drop_add (suc n) i [] = refl
byte-drop_add (suc n) i (x ∷ xs) =
    let e : suc n + i ≡ suc (n + i) = omega arith in rw e (byte-drop_add n i xs)

-- One block: its checksum byte makes the whole sum divisible by 256, and no other byte does.
block :
    (bs : List ℕ) (last : ℕ)
    → last < 256
    → (checksum_of (wrapping_sum 0 bs) ≡ last) ↔ ((sum bs + last) % 256 ≡ 0)
block bs last h =
    let s = wrapping_sum_lem 0 bs (omega arith) in
    (λ e. omega (arith, s, e), λ e. omega (arith, s, e))

abbrev the_ok : Result {0, 0} String Unit
the_ok = ok tt

guards-ok :
    (a b c d : Bool) (e1 e2 e3 e4 : String)
    → (if not a
        then err e1
        else if not b
        then err e2
        else if not c
        then err e3
        else if not d
        then err e4
        else ok tt)
      ≡ the_ok
    → (a ≡ true) × (b ≡ true) × (c ≡ true) × (d ≡ true)
guards-ok true true true true e1 e2 e3 e4 h = (refl, refl, refl, refl)
guards-ok true true true false e1 e2 e3 e4 h = cc
guards-ok true true false d e1 e2 e3 e4 h = cc
guards-ok true false c d e1 e2 e3 e4 h = cc
guards-ok false b c d e1 e2 e3 e4 h = cc

-- The four tests of an EDID that is accepted.
pub validate_edid-tests :
    (bytes : List ℕ)
    → validate_edid bytes ≡ ok tt
    → ((length bytes == edid_size) ≡ true)
      × (list_eq (take 8 bytes) edid_header ≡ true)
      × ((checksum_of (wrapping_sum 0 (slice bytes 0 127)) == byte bytes 127) ≡ true)
      × ((checksum_of (wrapping_sum 0 (slice bytes 128 127)) == byte bytes 255) ≡ true)
unfolding validate_edid
validate_edid-tests bytes e = guards-ok _ _ _ _ _ _ _ _ e

module _ (bytes : List ℕ) (values : AreBytes bytes) where
  first_block :
      (checksum_of (wrapping_sum 0 (slice bytes 0 127)) ≡ byte bytes 127)
      ↔ (sum (take 128 bytes) % 256 ≡ 0)
  first_block =
      let (to, from) = block (take 127 bytes) (byte bytes 127) (All-get bytes 127 values) in
      let s = sum-take 127 bytes in (λ e. omega (arith, s, to e), λ e. from (omega (arith, s, e)))

  second_block :
      length bytes ≡ 256
      → (checksum_of (wrapping_sum 0 (slice bytes 128 127)) ≡ byte bytes 255)
        ↔ (sum (drop 128 bytes) % 256 ≡ 0)
  second_block n =
      let (to, from) = block (slice bytes 128 127) (byte bytes 255) (All-get bytes 255 values) in
      let s = sum-take 127 (drop 128 bytes) in
      let size : length (drop 128 bytes) ≡ 128 = omega (arith, length-drop 128 bytes) in
      let whole : take 128 (drop 128 bytes) ≡ drop 128 bytes =
        subst (λ k. take k (drop 128 bytes) ≡ drop 128 bytes) size (take_all (drop 128 bytes)) in
      let last = byte-drop_add 128 127 bytes in
      let total : sum (drop 128 bytes) ≡ sum (slice bytes 128 127) + byte bytes 255 =
        ap (λ xs. sum xs) (sym whole) ∙ s ∙ rw last refl in
      (λ e. omega (arith, total, to e), λ e. from (omega (arith, total, e)))

  -- An EDID is accepted exactly if it has 256 bytes, begins with the header, and each of its two blocks
  -- of 128 bytes sums to 0 modulo 256.
  pub validate_edid-ok : (validate_edid bytes ≡ ok tt) ↔ (
      (length bytes ≡ 256)
      × (take 8 bytes ≡ edid_header)
      × (sum (take 128 bytes) % 256 ≡ 0)
      × (sum (drop 128 bytes) % 256 ≡ 0))
  unfolding validate_edid
  validate_edid-ok =
      let (sums, checks) = first_block in
      (
        λ e.
            let (size, header, one, two) = validate_edid-tests bytes e in
            let n = (==_iff (length bytes) edid_size).0 size in
            (
              n,
              list_eq→eq (take 8 bytes) edid_header header,
              sums ((==_iff _ _).0 one),
              (second_block n).0 ((==_iff _ _).0 two),
            ),
        λ (n, header, one, two).
            let c1 =
              (==_iff (checksum_of (wrapping_sum 0 (slice bytes 0 127))) (byte bytes 127)).1
                (checks one) in
            let c2 =
              (==_iff (checksum_of (wrapping_sum 0 (slice bytes 128 127))) (byte bytes 255)).1
                ((second_block n).1 two) in
            let h : list_eq (take 8 bytes) edid_header ≡ true = rw header refl in
            rw (n, h, c1, c2) refl,
      )
