-- ===== src/Passkey/Recovery/Tests.antt =====
-- Runs of server/src/passkey/recovery.rs, and the theorems at concrete inputs.
use rustykvm.Prelude.{
  ℕ, ◌+◌, ◌-◌, ◌*◌, ◌≤◌, ◌≡◌, refl, true, false, some, List, [], ◌∷◌, arith, ltb, if◌then◌else◌,
  length,
}
use rustykvm.Prelude.Result.{ok, err, complete}
use rustykvm.Prelude.Text.{Text, codes, trim, to_uppercase, without_dashes}
use rustykvm.Passkey.Recovery.{
  entry_of, check_rate_limit, generate_recovery_code, RecoveryCode, unused_count, normalize,
  matches, consume, redeem, Recovery, too_many_attempts, SaveIo, validate_and_consume_code,
  codes_for_display, generate_codes,
}
use rustykvm.Passkey.Recovery.RateLimit.{allowed_count, credit, allowed_count-le-credit}
use rustykvm.Passkey.Recovery.Consuming.{
  live_matches, validate_and_consume_code_lem, code_works_once,
}
use rustykvm.Passkey.Recovery.Codes.{lowered, skipped, end, generated_code-matches}

-- No character outside ASCII occurs below.
abbrev no_tables : ℕ → Text
no_tables c = c ∷ []

abbrev saves : SaveIo
saves = record { written = complete; permitted = true }

abbrev two_codes : List RecoveryCode
two_codes =
    record { code = codes "AB-CD"; used = true }
    ∷ record { code = codes "EF-GH"; used = false }
    ∷ []

abbrev fresh : Recovery
fresh = record { limits = []; file = some two_codes }

abbrev spent : Recovery
spent = record {
  limits = ("10.0.0.7", record { last_attempt = 1000; attempts = 5 }) ∷ [];
  file = some two_codes;
}

first_code : generate_recovery_code (λ i. i) ≡ codes "ABCD-EFGH-JKLM-NPQR"
unfolding generate_recovery_code
first_code = refl

shown_codes :
    (unused_count two_codes ≡ 1)
    × (codes_for_display two_codes ≡ codes "EF-GH" ∷ [])
    × (length (generate_codes (λ k i. i) 0 8) ≡ 8)
unfolding unused_count codes_for_display generate_codes
shown_codes = (refl, refl, refl)

runs :
    ((validate_and_consume_code no_tables saves 5 5 "10.0.0.7" (codes " ef-gH ") fresh).1
      ≡ ok (true, 1))
    × ((validate_and_consume_code no_tables saves 5 5 "10.0.0.7" (codes "abcd") fresh).1
        ≡ ok (false, 2))
    × ((validate_and_consume_code no_tables saves 1100 1101 "10.0.0.7" (codes "efgh") spent).1
        ≡ err (too_many_attempts 799))
unfolding validate_and_consume_code check_rate_limit redeem without_dashes to_uppercase trim
runs = (refl, refl, refl)

allowed_count-le-credit_example :
    901 * allowed_count "10.0.0.7" [] ((1, "10.0.0.7") ∷ (2, "10.0.0.8") ∷ [])
    ≤ credit 2 (entry_of "10.0.0.7" [])
allowed_count-le-credit_example =
    allowed_count-le-credit 2 "10.0.0.7" [] ((1, "10.0.0.7") ∷ (2, "10.0.0.8") ∷ []) (omega arith)
      (omega arith)

validate_and_consume_code_lem_example :
    let (r', answer) =
      validate_and_consume_code no_tables saves 5 5 "10.0.0.7" (codes "efgh") fresh in
    let typed = normalize no_tables (codes "efgh") in
    let cs' = consume typed two_codes in
    (r'.file ≡ some cs')
    × (answer
        ≡ ok
            (ltb 0 (live_matches typed two_codes), length two_codes - live_matches typed two_codes))
    × (live_matches typed cs' ≡ live_matches typed two_codes - 1)
    × (unused_count cs' + (if ltb 0 (live_matches typed two_codes) then 1 else 0)
        ≡ unused_count two_codes)
    × (live_matches typed two_codes ≡ 0 → cs' ≡ two_codes)
unfolding check_rate_limit
validate_and_consume_code_lem_example =
    validate_and_consume_code_lem no_tables saves 5 5 "10.0.0.7" (codes "efgh") fresh two_codes refl
      refl refl

code_works_once_example :
    let first = validate_and_consume_code no_tables saves 5 5 "10.0.0.7" (codes "efgh") fresh in
    (first.1 ≡ ok (true, length two_codes - 1))
    × ((validate_and_consume_code no_tables saves 6 6 "10.0.0.8" (codes "EF-GH") first.0).1
        ≡ ok (false, length two_codes))
unfolding check_rate_limit validate_and_consume_code live_matches without_dashes to_uppercase trim
code_works_once_example =
    code_works_once no_tables saves 5 5 6 6 "10.0.0.7" "10.0.0.8" (codes "efgh") (codes "EF-GH")
      fresh two_codes refl refl refl refl refl refl

generated_code-matches_example :
    matches
      (normalize no_tables (codes "aaaaaaaaaaaaaaaa"))
      (record { code = generate_recovery_code (λ i. 0); used = false })
    ≡ true
unfolding generate_recovery_code
generated_code-matches_example =
    generated_code-matches no_tables (λ i. 0) (codes "aaaaaaaaaaaaaaaa") false (λ i. omega arith)
      (lowered b'A' (
        lowered b'A' (
          lowered b'A' (
            lowered b'A' (
              skipped (
                lowered b'A' (
                  lowered b'A' (
                    lowered b'A' (
                      lowered b'A' (
                        skipped (
                          lowered b'A' (
                            lowered b'A' (
                              lowered b'A' (
                                lowered b'A' (
                                  skipped (
                                    lowered b'A' (
                                      lowered b'A'
                                        (lowered b'A' (lowered b'A' (end))))))))))))))))))))
