-- ===== src/Auth/BruteForce/Cleanup.antt =====
-- What a successful login and the clean-up task leave of the table.
use rustykvm.Prelude.{
  ℕ, ◌≤◌, String, ◌≡◌, ap, inl, inr, true, false, none, arith, str_eq, ltb, if◌then◌else◌,
  ltb_of_le, Bool-cases, length,
}
use rustykvm.Prelude.Assoc.{
  lookup, retain_values, lookup-remove, filter, lookup-retain_values, length-retain_values-le,
}
use rustykvm.Auth.BruteForce.{
  BruteForce, max_records, is_enabled, is_locked, check, clear, keeps, cleanup,
}
use rustykvm.Auth.BruteForce.Capacity.{IsBounded}

-- After a successful login the address is not refused; every other address is answered as before.
pub check-clear :
    (bf : BruteForce) (t : ℕ) (ip j : String)
    → check (clear bf ip) t j ≡ (if str_eq ip j then none else check bf t j)
unfolding check clear
check-clear bf t ip j = ground (arith, lookup-remove ip j bf.attempts)

lookup-cleanup :
    (bf : BruteForce) (now : ℕ) (ip : String)
    → is_enabled bf.security ≡ true
    → IsBounded bf
    → lookup ip (cleanup bf now).attempts ≡ filter (keeps now) (lookup ip bf.attempts)
unfolding cleanup
lookup-cleanup bf now ip on b =
    let few : ltb max_records (length (retain_values (keeps now) bf.attempts)) ≡ false =
      ltb_of_le _ _ (omega (arith, length-retain_values-le (keeps now) bf.attempts, b.bounded)) in
    rw (on, few) (lookup-retain_values (keeps now) ip bf.attempts b.unique)

security-cleanup : (bf : BruteForce) (now : ℕ) → (cleanup bf now).security ≡ bf.security
unfolding cleanup
security-cleanup bf now = ground arith

cleanup_off : (bf : BruteForce) (now : ℕ) → is_enabled bf.security ≡ false → cleanup bf now ≡ bf
unfolding cleanup
cleanup_off bf now off = rw off

-- A clean-up within the bound never changes what an address is answered, then or later: it
-- drops only records whose lockout is over or that never had one.
pub check-cleanup :
    (bf : BruteForce) (now t : ℕ) (ip : String)
    → IsBounded bf
    → now ≤ t
    → check (cleanup bf now) t ip ≡ check bf t ip
unfolding check is_locked keeps
check-cleanup bf now t ip b later = elim (Bool-cases (is_enabled bf.security)) [
  | inl on ↦ ground (arith, security-cleanup bf now, lookup-cleanup bf now ip on b)
  | inr off ↦ ap (λ s. check s t ip) (cleanup_off bf now off)
]
