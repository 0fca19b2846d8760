-- ===== src/Auth/BruteForce/Lockout.antt =====
-- When a failure locks an address out, and for how long.
use rustykvm.Prelude.{
  ℕ, ◌+◌, ◌^◌, ◌<◌, String, ◌≡◌, refl, ◌⊎◌, inl, inr, Bool, true, false, none, some, arith, ltb,
  leb, if◌then◌else◌, Bool-cases, Option-cases, length,
}
use rustykvm.Prelude.{◌&&◌, ◌||◌, ◌∙◌, ◌-◌, is_some_and, Option}
use rustykvm.Prelude.Int.{ℤ, pos, negsuc, IsI32, is_positive, as_unsigned}
use rustykvm.Prelude.Assoc.{lookup, lookup-insert_self}
use rustykvm.Auth.BruteForce.{
  Security, LoginAttempt, BruteForce, max_records, is_enabled, window, max_failures, locked_error,
  is_locked, check, count_failure, entry_or_default, make_room, record_failure,
}

-- The settings are i32 and switch the protection on.
pub record IsActive (s : Security) : Type 0 where
  pub duration : IsI32 s.login_lockout_duration
  pub most : IsI32 s.login_max_failures
  pub enabled : is_enabled s ≡ true

-- A record whose last failure is more than the window ago.
abbrev pub is_old : ℕ → ℕ → LoginAttempt → Bool
is_old span now a = ltb 0 a.last_failed && ltb span (now - a.last_failed)

as_unsigned-pos :
    (bits : ℕ) (z : ℤ)
    → bits ≡ 32 ⊎ bits ≡ 64
    → IsI32 z
    → is_positive z ≡ true
    → 0 < as_unsigned bits z
as_unsigned-pos bits (pos n) (inl e) r h = rw e (ground arith)
as_unsigned-pos bits (pos n) (inr e) r h = rw e (ground arith)
as_unsigned-pos bits (negsuc n) e r h = cc

pub window-pos : {s : Security} → IsActive s → 0 < window s
window-pos {s} a =
    as_unsigned-pos 64 s.login_lockout_duration (inr refl) a.duration (ground (arith, a.enabled))

-- One failure on a record.
count_failure-is_locked :
    (span most now t : ℕ) (a : LoginAttempt)
    → now + span < 2 ^ 64
    → is_locked t (count_failure span most now a).0 ≡ (
        if (count_failure span most now a).1
        then ltb t (now + span)
        else if is_old span now a
        then false
        else is_locked t a)
unfolding count_failure is_locked
count_failure-is_locked span most now t a fits = ground arith

-- The answer to an address after a failure, by whether the window of a lockout has not passed, whether the
-- failure started afresh, the failure's own answer, and the answer to the address before.
abbrev pub answer_after :
    Bool → Bool → Option (ℤ × String) → Option (ℤ × String) → Option (ℤ × String)
answer_after early forgotten (some e) before = if early then some e else none
answer_after early forgotten none before = if forgotten then none else before

answer_after-locked_error :
    (locked lockout early forgotten before : Bool)
    → locked ≡ (if lockout then early else if forgotten then false else before)
    → (if locked then some locked_error else none)
      ≡ answer_after early forgotten
          (if lockout then some locked_error else none)
          (if before then some locked_error else none)
answer_after-locked_error locked true early forgotten before h = rw h refl
answer_after-locked_error locked false early true before h = rw h refl
answer_after-locked_error locked false early false before h = rw h refl

module _ (bf : BruteForce) (ip : String) (active : IsActive bf.security) where
  -- The record of `ip` after a failure is that of `count_failure`, and so is the answer.
  pub counted : ℕ → LoginAttempt × Bool
  counted now =
      count_failure (window bf.security) (max_failures bf.security) now
        (entry_or_default ip (make_room bf.attempts))

  pub lookup-record_failure :
      (now : ℕ) → lookup ip (record_failure bf now ip).0.attempts ≡ some (counted now).0
  unfolding record_failure counted
  lookup-record_failure now = rw active.enabled (lookup-insert_self ip _ _)

  security-record_failure : (now : ℕ) → (record_failure bf now ip).0.security ≡ bf.security
  unfolding record_failure
  security-record_failure now = rw active.enabled

  answer-record_failure :
      (now : ℕ)
      → (record_failure bf now ip).1 ≡ (if (counted now).1 then some locked_error else none)
  unfolding record_failure counted
  answer-record_failure now = rw active.enabled

  check_of_lookup :
      (bf' : BruteForce) (t : ℕ) (a : LoginAttempt)
      → bf'.security ≡ bf.security
      → lookup ip bf'.attempts ≡ some a
      → check bf' t ip ≡ (if is_locked t a then some locked_error else none)
  unfolding check
  check_of_lookup bf' t a e l = ground (arith, active.enabled)

  -- A failure starts the address afresh where the table is full, or its last failure is too long ago.
  abbrev pub is_forgotten : ℕ → Bool
  is_forgotten now =
      leb max_records (length bf.attempts)
      || is_some_and (is_old (window bf.security) now) (lookup ip bf.attempts)

  is_locked-entry_or_default :
      (now t : ℕ)
      → (if is_old (window bf.security) now (entry_or_default ip (make_room bf.attempts))
          then false
          else is_locked t (entry_or_default ip (make_room bf.attempts)))
        ≡ (if is_forgotten now then false else is_some_and (is_locked t) (lookup ip bf.attempts))
  unfolding entry_or_default make_room is_locked
  is_locked-entry_or_default now t = elim (Bool-cases (leb max_records (length bf.attempts))) [
    | inl full ↦ rw full (ground arith)
    | inr room ↦ rw room (elim (Option-cases (lookup ip bf.attempts)) [
      | inl missing ↦ rw (missing, entry_or_default) (ground arith)
      | inr (a, found) ↦ rw (found, entry_or_default) (ground arith)
    ])
  ]

  check-is_locked :
      (t : ℕ)
      → check bf t ip
        ≡ (if is_some_and (is_locked t) (lookup ip bf.attempts) then some locked_error else none)
  unfolding check
  check-is_locked t = rw active.enabled (elim (Option-cases (lookup ip bf.attempts)) [
    | inl missing ↦ rw missing refl
    | inr (a, found) ↦ rw found refl
  ])

  -- Where the protection is on, with settings that are i32 and a window that ends within u64: a failure that
  -- locks the address has it refused from then on until the window has passed, with the very answer that
  -- `record_failure` gave. After one that does not, it is refused as it was before, or no longer if that
  -- failure found the table full or the last failure more than the window ago.
  pub check-record_failure :
      (now t : ℕ)
      → now + window bf.security < 2 ^ 64
      → check (record_failure bf now ip).0 t ip
        ≡ answer_after
            (ltb t (now + window bf.security))
            (is_forgotten now)
            (record_failure bf now ip).1
            (check bf t ip)
  unfolding counted
  check-record_failure now t fits =
      let entry = entry_or_default ip (make_room bf.attempts) in
      let counts =
        count_failure-is_locked (window bf.security) (max_failures bf.security) now t entry fits in
      let locked : is_locked t (counted now).0 ≡ (
          if (counted now).1
          then ltb t (now + window bf.security)
          else if is_forgotten now
          then false
          else is_some_and (is_locked t) (lookup ip bf.attempts)) =
        counts ∙ rw (is_locked-entry_or_default now t) refl in
      rw
        (
          check_of_lookup (record_failure bf now ip).0 t (counted now).0
              (security-record_failure now) (lookup-record_failure now),
          answer-record_failure now,
          check-is_locked t,
        )
        (answer_after-locked_error (is_locked t (counted now).0) (counted now).1
          (ltb t (now + window bf.security)) (is_forgotten now)
          (is_some_and (is_locked t) (lookup ip bf.attempts)) locked)
