-- ===== src/Auth/BruteForce/Tests.antt =====
-- Runs of server/src/auth/brute_force.rs, and the theorems at concrete inputs.
use rustykvm.Prelude.{
  String, ◌≡◌, refl, true, Option, none, some, List, [], ◌∷◌, map, arith, eq_iff,
}
use Prim.Native.String
use mathlib.Core.List.{flat_map}
use rustykvm.Prelude.Int.{pos}
use rustykvm.Prelude.Assoc.{Assoc}
use rustykvm.Auth.BruteForce.{
  Security, LoginAttempt, BruteForce, SaveIo, Kept, new, locked_error, is_locked, check,
  count_failure, record_failure, clear, cleanup, save, load, record_failure_kept, clear_kept,
}
use rustykvm.Auth.BruteForce.Lockout.{check-record_failure}
use rustykvm.Auth.BruteForce.Runs.{fail_at, lockout_after_run}
use rustykvm.Auth.BruteForce.Capacity.{
  IsBounded, failed, succeeded, tick, apply_all, apply_all-new-IsBounded, record_failure_full,
}

operations : Unit {0}
unfolding is_locked check record_failure clear cleanup save load record_failure_kept clear_kept
operations = tt

-- Five minutes after three failures, as in the source's own test.
abbrev three_in_five : Security
three_in_five = record { login_lockout_duration = pos 300; login_max_failures = pos 3 }

abbrev disabled : Security
disabled = record { login_lockout_duration = pos 0; login_max_failures = pos 5 }

abbrev twice : BruteForce
twice = record {
  attempts = ("192.0.2.1", record { failures = 2; last_failed = 1000; lockout_end = 0 }) ∷ [];
  security = three_in_five;
}

abbrev thrice : BruteForce
thrice = record {
  attempts = ("192.0.2.1", record { failures = 3; last_failed = 1001; lockout_end = 1301 }) ∷ [];
  security = three_in_five;
}

basic_lockout_flow :
    (check (new three_in_five) 1000 "192.0.2.1" ≡ none)
    × (record_failure twice 1001 "192.0.2.1" ≡ (thrice, some locked_error))
    × (check thrice 1300 "192.0.2.1" ≡ some locked_error)
    × (check thrice 1301 "192.0.2.1" ≡ none)
    × (check (clear thrice "192.0.2.1") 1300 "192.0.2.1" ≡ none)
unfolding operations
basic_lockout_flow = (refl, refl, refl, refl, refl)

disabled_flow : record_failure (new disabled) 7 "192.0.2.1" ≡ (new disabled, none)
unfolding operations
disabled_flow = refl

check-record_failure_example :
    check (record_failure twice 1001 "192.0.2.1").0 1200 "192.0.2.1" ≡ some locked_error
unfolding operations
check-record_failure_example =
    check-record_failure twice "192.0.2.1"
      (record { duration = omega arith; most = omega arith; enabled = refl }) 1001 1200
      (omega arith)

lockout_after_run_example :
    check (fail_at (new three_in_five) "192.0.2.1" (1000 ∷ 1001 ∷ 1002 ∷ [])) 1100 "192.0.2.1"
    ≡ some locked_error
lockout_after_run_example =
    lockout_after_run three_in_five "192.0.2.1"
      (record { duration = omega arith; most = omega arith; enabled = refl }) (new three_in_five)
      1000 (1001 ∷ 1002 ∷ []) 1100 refl refl (omega arith) (omega arith) (omega arith)

apply_all-new-IsBounded_example :
    IsBounded (apply_all (new three_in_five) (failed 5 "a" ∷ tick 9 ∷ succeeded "a" ∷ []))
apply_all-new-IsBounded_example =
    apply_all-new-IsBounded three_in_five (failed 5 "a" ∷ tick 9 ∷ succeeded "a" ∷ [])

abbrev write_address : Assoc LoginAttempt → Option String
write_address [] = some ""
write_address ((ip, a) ∷ m) = some ip

abbrev read_address : String → Option (Assoc LoginAttempt)
read_address ip = some ((ip, record { failures = 3; last_failed = 1001; lockout_end = 1301 }) ∷ [])

abbrev works : SaveIo
works = record { written = true; renamed = true }

abbrev before : Kept
before = record { memory = twice; file = none }

abbrev locked_out : Kept
locked_out = record { memory = thrice; file = some "192.0.2.1" }

abbrev write_none : Assoc LoginAttempt → Option String
write_none m = some "{}"

abbrev read_none : String → Option (Assoc LoginAttempt)
read_none text = some []

-- 3375 distinct addresses, each locked out until 5000.
abbrev letters : List String
letters =
    "a" ∷ "b" ∷ "c" ∷ "d" ∷ "e" ∷ "f" ∷ "g" ∷ "h" ∷ "i" ∷ "j" ∷ "k" ∷ "l" ∷ "m" ∷ "n" ∷ "o" ∷ []

abbrev locked_at_5000 : String → String × LoginAttempt
locked_at_5000 ip = (ip, record { failures = 3; last_failed = 4700; lockout_end = 5000 })

abbrev crowd : BruteForce
crowd = record {
  attempts = map locked_at_5000 (
      flat_map (λ a. flat_map (λ b. map (λ c. String.◌++◌ a (String.◌++◌ b c)) letters) letters)
        letters);
  security = three_in_five;
}

record_failure_full_example :
    (check (record_failure crowd 4800 "192.0.2.1").0 4900 "abc" ≡ none)
    × ((record_failure crowd 4800 "192.0.2.1").0.attempts
        ≡ ("192.0.2.1", record { failures = 1; last_failed = 4800; lockout_end = 0 }) ∷ [])
unfolding count_failure flat_map
record_failure_full_example =
    record_failure_full crowd 4800 4900 "192.0.2.1" "abc" refl (omega arith)
      (ground (arith, eq_iff "192.0.2.1" "abc"))
