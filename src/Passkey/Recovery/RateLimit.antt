-- ===== src/Passkey/Recovery/RateLimit.antt =====
-- How many attempts with recovery codes one address gets.
use rustykvm.Prelude.{
  ℕ, ◌+◌, ◌-◌, ◌*◌, ◌≤◌, String, ◌≡◌, refl, ap, ◌∙◌, inl, inr, Bool, true, false, ◌&&◌, List, [],
  ◌∷◌, arith, eq_iff, str_eq, if◌then◌else◌, Bool-cases, All,
}
use rustykvm.Prelude.Result.{err}
use rustykvm.Prelude.Assoc.{lookup-insert}
use text.Mathlib.TextPositions.{eq_refl}
use rustykvm.Prelude.Text.{Text}
use rustykvm.Passkey.Recovery.{
  rate_limit_window_seconds, max_attempts_per_window, RateLimitState, RateLimitStore, entry_of,
  attempt, check_rate_limit, Recovery, SaveIo, too_many_attempts, validate_and_consume_code,
}

-- How many of the attempts, each with its time and address, are allowed to `ip`.
pub allowed_count : String → RateLimitStore → List (ℕ × String) → ℕ
allowed_count ip store [] = 0
allowed_count ip store ((now, who) ∷ rs) =
    (if str_eq who ip && (check_rate_limit now who store).1 then 1 else 0)
    + allowed_count ip (check_rate_limit now who store).0 rs

abbrev pub NotAfter : ℕ → List (ℕ × String) → Type 0
NotAfter end rs = All (λ r. r.0 ≤ end) rs

-- The attempts that an entry still has, in units that make the bound linear.
abbrev pub credit : ℕ → RateLimitState → ℕ
credit end e =
    max_attempts_per_window * (end - e.last_attempt)
    + (rate_limit_window_seconds + 1) * (max_attempts_per_window - e.attempts)

attempt-credit :
    (now end : ℕ) (e : RateLimitState)
    → e.last_attempt ≤ end
    → now ≤ end
    → ((rate_limit_window_seconds + 1) * (if (attempt now e).1 then 1 else 0)
          + credit end (attempt now e).0
        ≤ credit end e)
      × ((attempt now e).0.last_attempt ≤ end)
unfolding attempt
attempt-credit now end e h k = ground arith

-- An attempt of another address changes nothing for this one.
entry_of-check_rate_limit :
    (now : ℕ) (who ip : String) (store : RateLimitStore)
    → (entry_of ip (check_rate_limit now who store).0
        ≡ (if str_eq who ip then (attempt now (entry_of ip store)).0 else entry_of ip store))
      × (str_eq who ip ≡ true
          → (check_rate_limit now who store).1 ≡ (attempt now (entry_of ip store)).1)
unfolding check_rate_limit
entry_of-check_rate_limit now who ip store = elim (Bool-cases (str_eq who ip)) [
  | inl same ↦
      let e : who ≡ ip = (eq_iff who ip).0 same in
      rw (e, eq_refl)
        (
          ground
              (arith, lookup-insert ip ip (attempt now (entry_of ip store)).0 store, eq_iff ip ip),
          λ _. refl,
        )
  | inr other ↦ (
    ground (arith, lookup-insert who ip (attempt now (entry_of who store)).0 store),
    λ same. absurd (ground arith),
  )
]

-- Whatever the addresses and the order of the attempts, up to the instant `end` an address is allowed
-- no more than what its entry has left in the window, and five for each further 901 seconds.
pub allowed_count-le-credit :
    (end : ℕ) (ip : String) (store : RateLimitStore) (rs : List (ℕ × String))
    → (entry_of ip store).last_attempt ≤ end
    → NotAfter end rs
    → (rate_limit_window_seconds + 1) * allowed_count ip store rs ≤ credit end (entry_of ip store)
unfolding allowed_count
allowed_count-le-credit end ip store [] h k = omega arith
allowed_count-le-credit end ip store ((now, who) ∷ rs) h (early, k) =
    let store' = (check_rate_limit now who store).0 in
    let (entry, allowed) = entry_of-check_rate_limit now who ip store in
    let (step, last) = attempt-credit now end (entry_of ip store) h early in
    let inside : (entry_of ip store').last_attempt ≤ end = ground (arith, entry, last) in
    let rest = allowed_count-le-credit end ip store' rs inside k in
    ground (arith, entry, allowed, step, rest)

attempt_refused :
    (now : ℕ) (e : RateLimitState)
    → now ≤ e.last_attempt + rate_limit_window_seconds
    → max_attempts_per_window ≤ e.attempts
    → attempt now e ≡ (e, false)
unfolding attempt
attempt_refused now e within spent = ground arith

-- An attempt that is over the limit is answered with what is left of the window at the second
-- reading of the clock, and the file of codes is not changed.
pub refused_attempt :
    (tables : ℕ → Text) (io : SaveIo) (now later : ℕ) (ip : String) (input : Text) (r : Recovery)
    → now ≤ (entry_of ip r.limits).last_attempt + rate_limit_window_seconds
    → max_attempts_per_window ≤ (entry_of ip r.limits).attempts
    → let (r', answer) = validate_and_consume_code tables io now later ip input r in
      (r'.file ≡ r.file)
      × (answer
          ≡ err (
              too_many_attempts
                (rate_limit_window_seconds - (later - (entry_of ip r.limits).last_attempt))))
unfolding validate_and_consume_code
refused_attempt tables io now later ip input r within spent =
    let (entry, allowed) = entry_of-check_rate_limit now ip ip r.limits in
    let refused = attempt_refused now (entry_of ip r.limits) within spent in
    let no_pass : (check_rate_limit now ip r.limits).1 ≡ false =
      allowed (eq_refl ip) ∙ ap (λ (p : RateLimitState × Bool). p.1) refused in
    let same : entry_of ip (check_rate_limit now ip r.limits).0 ≡ entry_of ip r.limits =
      entry ∙ rw (eq_refl, refused) refl in
    rw (no_pass, same) (refl, refl)
