-- ===== src/Auth/BruteForce/Runs.antt =====
-- A run of failures of one address, each inside the window of the one before it.
use rustykvm.Prelude.{
  ℕ, suc, ◌+◌, ◌-◌, ◌^◌, ◌≤◌, ◌<◌, String, ◌≡◌, refl, ◌&&◌, none, some, List, [], ◌∷◌, arith, ltb,
  leb, if◌then◌else◌, length,
}
use rustykvm.Prelude.Assoc.{
  lookup, insert, lookup-insert_self, length-insert-le, length-insert_of_some, Assoc,
}
use rustykvm.Auth.BruteForce.{
  Security, LoginAttempt, BruteForce, max_records, no_attempt, window, max_failures, locked_error,
  is_locked, check, count_failure, entry_or_default, make_room, record_failure,
}
use rustykvm.Auth.BruteForce.Lockout.{IsActive, window-pos}

-- The record that a run of `n` failures leaves, the last of them at `t`.
abbrev run_record : Security → ℕ → ℕ → LoginAttempt
run_record s n t = record {
  failures = n;
  last_failed = t;
  lockout_end = if leb (max_failures s) n then t + window s else 0;
}

count_failure-run_record :
    (s : Security) (n t now : ℕ)
    → now - t ≤ window s
    → n + 1 < 2 ^ 32
    → now + window s < 2 ^ 64
    → (count_failure (window s) (max_failures s) now (run_record s n t)).0
      ≡ run_record s (n + 1) now
unfolding count_failure
count_failure-run_record s n t now near small fits = ground arith

count_failure-first :
    (s : Security) (now : ℕ)
    → now + window s < 2 ^ 64
    → (count_failure (window s) (max_failures s) now no_attempt).0 ≡ run_record s 1 now
unfolding count_failure
count_failure-first s now fits = ground arith

-- Failures of one address, at the given times.
pub fail_at : BruteForce → String → List ℕ → BruteForce
fail_at bf ip [] = bf
fail_at bf ip (t ∷ ts) = fail_at (record_failure bf t ip).0 ip ts

-- Each failure comes at most `span` seconds after the one before it, and the clock is far from the
-- end of u64.
abbrev pub IsRun : ℕ → ℕ → List ℕ → Type 0
IsRun span t [] = Unit
IsRun span t (u ∷ us) = (u - t ≤ span) × (u + span < 2 ^ 64) × IsRun span u us

abbrev pub last : ℕ → List ℕ → ℕ
last t [] = t
last t (u ∷ us) = last u us

-- `ip` has `n` failures on record, the last at `t`, and there is room for new addresses.
record HasRun (bf : BruteForce) (s : Security) (ip : String) (n t : ℕ) : Type 0 where
  same : bf.security ≡ s
  found : lookup ip bf.attempts ≡ some (run_record s n t)
  room : length bf.attempts < max_records

make_room_of_room : (m : Assoc LoginAttempt) → length m < max_records → make_room m ≡ m
unfolding make_room
make_room_of_room m room = ground arith

module _ (s : Security) (ip : String) (active : IsActive s) where
  -- The state after a failure while there is room.
  after_failure :
      (bf : BruteForce) (t : ℕ)
      → bf.security ≡ s
      → length bf.attempts < max_records
      → (record_failure bf t ip).0 ≡ record {
        attempts =
            insert ip
              (count_failure (window s) (max_failures s) t (entry_or_default ip bf.attempts)).0
              bf.attempts;
        security = s;
      }
  unfolding record_failure
  after_failure bf t same room = rw (same, active.enabled, make_room_of_room bf.attempts room)

  first_failure :
      (bf : BruteForce) (t : ℕ)
      → bf.security ≡ s
      → lookup ip bf.attempts ≡ none
      → length bf.attempts + 1 < max_records
      → t + window s < 2 ^ 64
      → HasRun (record_failure bf t ip).0 s ip 1 t
  unfolding entry_or_default
  first_failure bf t same missing room fits =
      rw (after_failure bf t same (omega arith), missing, entry_or_default)
        (record {
          same = refl;
          found = rw (count_failure-first s t fits) (lookup-insert_self ip _ _);
          room = omega (
            arith,
            length-insert-le ip (count_failure (window s) (max_failures s) t no_attempt).0
                bf.attempts,
          );
        })

  next_failure :
      (bf : BruteForce) (n t u : ℕ)
      → HasRun bf s ip n t
      → u - t ≤ window s
      → u + window s < 2 ^ 64
      → n + 1 < 2 ^ 32
      → HasRun (record_failure bf u ip).0 s ip (n + 1) u
  unfolding entry_or_default
  next_failure bf n t u run near fits small =
      rw (after_failure bf u run.same run.room, run.found, entry_or_default)
        (record {
          same = refl;
          found = rw (count_failure-run_record s n t u near small fits) (lookup-insert_self ip _ _);
          room = omega (
            arith,
            run.room,
            length-insert_of_some ip
                (count_failure (window s) (max_failures s) u (run_record s n t)).0 bf.attempts
                run.found,
          );
        })

  fail_at-HasRun :
      (bf : BruteForce) (n t : ℕ) (us : List ℕ)
      → HasRun bf s ip n t
      → IsRun (window s) t us
      → n + length us < 2 ^ 32
      → HasRun (fail_at bf ip us) s ip (n + length us) (last t us)
  unfolding fail_at
  fail_at-HasRun bf n t [] run r small = let e : n + 0 ≡ n = omega arith in rw e run
  fail_at-HasRun bf n t (u ∷ us) run (near, fits, r) small =
      let e : n + suc (length us) ≡ n + 1 + length us = omega arith in
      rw e (
        fail_at-HasRun (record_failure bf u ip).0 (n + 1) u us
          (next_failure bf n t u run near fits (omega arith)) r (omega arith))

  check-HasRun :
      (bf : BruteForce) (n t u : ℕ)
      → HasRun bf s ip n t
      → check bf u ip
        ≡ (if leb (max_failures s) n && ltb u (t + window s) then some locked_error else none)
  unfolding check is_locked
  check-HasRun bf n t u run =
      rw (run.same, active.enabled, run.found) (ground (arith, window-pos active))

  -- An address with no record fails at `t` and then at each of `us`, each time at most a window
  -- after the time before, while fewer than 2999 addresses are on record. It is locked out
  -- exactly if these are at least `login_max_failures` failures, until a window after the last.
  pub lockout_after_run :
      (bf : BruteForce) (t : ℕ) (us : List ℕ) (u : ℕ)
      → bf.security ≡ s
      → lookup ip bf.attempts ≡ none
      → length bf.attempts + 1 < max_records
      → IsRun (window s) t (t ∷ us)
      → 1 + length us < 2 ^ 32
      → check (fail_at bf ip (t ∷ us)) u ip ≡ (
          if leb (max_failures s) (length (t ∷ us)) && ltb u (last t us + window s)
          then some locked_error
          else none)
  unfolding fail_at
  lockout_after_run bf t us u same missing room (_, fits, r) small =
      let e : length (t ∷ us) ≡ 1 + length us = omega arith in
      rw e (
        check-HasRun (fail_at bf ip (t ∷ us)) (1 + length us) (last t us) u (
          fail_at-HasRun (record_failure bf t ip).0 1 t us
            (first_failure bf t same missing room fits) r small))
