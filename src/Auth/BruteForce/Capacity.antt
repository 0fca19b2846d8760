-- ===== src/Auth/BruteForce/Capacity.antt =====
-- The table never outgrows MAX_RECORDS, keeps its keys distinct, and what a full table does.
use rustykvm.Prelude.{
  ℕ, ◌+◌, ◌≤◌, String, ◌≡◌, refl, ◌≢◌, inl, inr, true, none, List, [], ◌∷◌, arith, eq_iff, leb,
  Bool-cases, length,
}
use rustykvm.Prelude.Assoc.{
  Assoc, UniqueKeys, length-insert-le, insert-UniqueKeys, length-remove-le, remove-UniqueKeys,
  length-retain_values-le, retain_values-UniqueKeys,
}
use rustykvm.Auth.BruteForce.{
  Security, LoginAttempt, BruteForce, max_records, no_attempt, new, is_enabled, window,
  max_failures, check, count_failure, entry_or_default, make_room, record_failure, clear, keeps,
  cleanup,
}

-- A `HashMap` within the bound.
pub record IsBounded (bf : BruteForce) : Type 0 where
  pub unique : UniqueKeys bf.attempts
  pub bounded : length bf.attempts ≤ max_records

-- The operations that change the table; times and addresses are whatever comes.
pub data Event : Type 0 where
  failed : (now : ℕ) (ip : String) → Event
  succeeded : (ip : String) → Event
  tick : (now : ℕ) → Event

pub apply : BruteForce → Event → BruteForce
apply bf (failed now ip) = (record_failure bf now ip).0
apply bf (succeeded ip) = clear bf ip
apply bf (tick now) = cleanup bf now

pub apply_all : BruteForce → List Event → BruteForce
apply_all bf [] = bf
apply_all bf (e ∷ es) = apply_all (apply bf e) es

make_room-UniqueKeys : (m : Assoc LoginAttempt) → UniqueKeys m → UniqueKeys (make_room m)
unfolding make_room
make_room-UniqueKeys m u = ground arith

length-make_room : (m : Assoc LoginAttempt) → length (make_room m) + 1 ≤ max_records
unfolding make_room
length-make_room m = ground arith

record_failure-IsBounded :
    (bf : BruteForce) (now : ℕ) (ip : String)
    → IsBounded bf
    → IsBounded (record_failure bf now ip).0
unfolding record_failure
record_failure-IsBounded bf now ip b =
    let m = make_room bf.attempts in
    let a =
      (count_failure (window bf.security) (max_failures bf.security) now
        (entry_or_default ip m)).0 in
    elim (Bool-cases (is_enabled bf.security)) [
      | inl on ↦ rw on (record {
        unique = insert-UniqueKeys ip a m (make_room-UniqueKeys bf.attempts b.unique);
        bounded = omega (arith, length-insert-le ip a m, length-make_room bf.attempts);
      })
      | inr off ↦ rw off b
    ]

clear-IsBounded : (bf : BruteForce) (ip : String) → IsBounded bf → IsBounded (clear bf ip)
unfolding clear
clear-IsBounded bf ip b =
    ground (arith, remove-UniqueKeys ip bf.attempts b.unique, length-remove-le ip bf.attempts)

cleanup-IsBounded : (bf : BruteForce) (now : ℕ) → IsBounded bf → IsBounded (cleanup bf now)
unfolding cleanup
cleanup-IsBounded bf now b = ground (
  arith,
  retain_values-UniqueKeys (keeps now) bf.attempts b.unique,
  length-retain_values-le (keeps now) bf.attempts,
)

apply_all-IsBounded :
    (bf : BruteForce) (es : List Event) → IsBounded bf → IsBounded (apply_all bf es)
unfolding apply_all apply
apply_all-IsBounded bf [] b = b
apply_all-IsBounded bf (failed now ip ∷ es) b =
    apply_all-IsBounded (record_failure bf now ip).0 es (record_failure-IsBounded bf now ip b)
apply_all-IsBounded bf (succeeded ip ∷ es) b =
    apply_all-IsBounded (clear bf ip) es (clear-IsBounded bf ip b)
apply_all-IsBounded bf (tick now ∷ es) b =
    apply_all-IsBounded (cleanup bf now) es (cleanup-IsBounded bf now b)

-- From an empty table, whatever the failures, successes and clean-ups, in any order and at any
-- times, the keys stay distinct and there are at most MAX_RECORDS records.
pub apply_all-new-IsBounded : (s : Security) (es : List Event) → IsBounded (apply_all (new s) es)
apply_all-new-IsBounded s es =
    apply_all-IsBounded (new s) es (record { unique = tt; bounded = omega arith })

-- A failure of one address while the table is full forgets every other address: each lockout
-- in force is lifted, and the failing address itself restarts at one failure.
pub record_failure_full :
    (bf : BruteForce) (now t : ℕ) (ip j : String)
    → is_enabled bf.security ≡ true
    → max_records ≤ length bf.attempts
    → ip ≢ j
    → (check (record_failure bf now ip).0 t j ≡ none)
      × ((record_failure bf now ip).0.attempts
          ≡ (ip, (count_failure (window bf.security) (max_failures bf.security) now no_attempt).0)
            ∷ [])
unfolding record_failure check make_room entry_or_default
record_failure_full bf now t ip j on full other =
    let e : leb max_records (length bf.attempts) ≡ true = ground arith in
    rw (e, on) (ground (arith, eq_iff ip j), refl)
