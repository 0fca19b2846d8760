-- ===== src/Auth/BruteForce.antt =====
-- server/src/auth/brute_force.rs: failed logins per client address, the lockout, its clean-up task
-- and its state file. Times are seconds since the epoch, read by the caller; each operation runs
-- under the write lock of `attempts`, so it is one step. `failures` is a u32 and `lockout_end` a
-- u64; both wrap, as the release profile has them.
pub mod Lockout
pub mod Runs
pub mod Capacity
pub mod Cleanup
pub mod Persistence
mod Tests
use rustykvm.Prelude.{
  ℕ, ◌+◌, ◌-◌, ◌*◌, ◌||◌, ◌%◌, ◌^◌, String, Bool, true, false, not, ◌&&◌, Option, none, some, List,
  [], ◌∷◌, ltb, leb, ◌==◌, if◌then◌else◌, length,
}
use rustykvm.Prelude.Int.{ℤ, is_positive, as_unsigned}
use rustykvm.Prelude.Assoc.{Assoc, lookup, insert, remove, retain_values}
use rustykvm.Api.ErrorCodes

-- server/src/config.rs: the two settings that the protection reads (both i32).
pub record Security : Type 0 where
  pub login_lockout_duration : ℤ
  pub login_max_failures : ℤ

pub record LoginAttempt : Type 0 where
  pub failures : ℕ
  pub last_failed : ℕ
  pub lockout_end : ℕ

pub record BruteForce : Type 0 where
  pub attempts : Assoc LoginAttempt
  pub security : Security

abbrev pub max_records : ℕ
max_records = 3000

-- IDLE_TTL, in seconds
abbrev pub idle_ttl : ℕ
idle_ttl = 30 * 60

-- `LoginAttempt::default()`
abbrev pub no_attempt : LoginAttempt
no_attempt = record { failures = 0; last_failed = 0; lockout_end = 0 }

abbrev pub new : Security → BruteForce
new s = record { attempts = []; security = s }

abbrev pub is_enabled : Security → Bool
is_enabled s = is_positive s.login_lockout_duration && is_positive s.login_max_failures

-- `login_lockout_duration as u64` and `login_max_failures as u32`
abbrev pub window : Security → ℕ
window s = as_unsigned 64 s.login_lockout_duration

abbrev pub max_failures : Security → ℕ
max_failures s = as_unsigned 32 s.login_max_failures

abbrev pub locked_error : ℤ × String
locked_error =
    (ErrorCodes.locked, "Account locked due to too many failed attempts, please try again later")

unfoldable pub is_locked : ℕ → LoginAttempt → Bool
is_locked now a = ltb 0 a.lockout_end && ltb now a.lockout_end

unfoldable pub check : BruteForce → ℕ → String → Option (ℤ × String)
check bf now ip = if not (is_enabled bf.security) then none else elim (lookup ip bf.attempts) [
  | none ↦ none
  | some a ↦ if is_locked now a then some locked_error else none
]

-- A record whose last failure is older than the window starts afresh.
expire : ℕ → ℕ → LoginAttempt → LoginAttempt
expire span now a =
    if ltb 0 a.last_failed && ltb span (now - a.last_failed)
    then record a { failures = 0; lockout_end = 0 }
    else a

-- One more failure at `now`, and the lockout if that makes `most`.
pub count_failure : ℕ → ℕ → ℕ → LoginAttempt → LoginAttempt × Bool
unfolding expire
count_failure span most now a =
    let b = expire span now a in
    let c = record b { failures = (b.failures + 1) % 2 ^ 32; last_failed = now } in
    if leb most c.failures
    then (record c { lockout_end = (now + span) % 2 ^ 64 }, true)
    else (c, false)

-- `entry(ip).or_default()`
pub entry_or_default : String → Assoc LoginAttempt → LoginAttempt
entry_or_default ip m = elim (lookup ip m) [ none ↦ no_attempt | some a ↦ a ]

-- `if map.len() >= MAX_RECORDS { map.clear(); }`
pub make_room : Assoc LoginAttempt → Assoc LoginAttempt
make_room m = if leb max_records (length m) then [] else m

-- The part of `record_failure` under the lock, and its answer; `save` follows it.
unfoldable pub record_failure : BruteForce → ℕ → String → BruteForce × Option (ℤ × String)
unfolding count_failure entry_or_default make_room
record_failure bf now ip =
    if not (is_enabled bf.security)
    then (bf, none)
    else (let m = make_room bf.attempts in
        let (a, lockout) =
          count_failure (window bf.security) (max_failures bf.security) now
            (entry_or_default ip m) in
        (record bf { attempts = insert ip a m }, if lockout then some locked_error else none))

unfoldable pub clear : BruteForce → String → BruteForce
clear bf ip =
    if not (is_enabled bf.security) then bf else record bf { attempts = remove ip bf.attempts }

-- The test of `retain` in the clean-up task.
keeps : ℕ → LoginAttempt → Bool
unfolding is_locked
keeps now a = is_locked now a || ((a.lockout_end == 0) && ltb (now - a.last_failed) idle_ttl)

-- One tick of the clean-up task, which is spawned only where the protection is enabled.
unfoldable pub cleanup : BruteForce → ℕ → BruteForce
unfolding keeps
cleanup bf now =
    if not (is_enabled bf.security)
    then bf
    else (let m = retain_values (keeps now) bf.attempts in
        record bf { attempts = if ltb max_records (length m) then [] else m })

-- What the file system answers to the calls of `save`.
pub record SaveIo : Type 0 where
  pub written : Bool
  pub renamed : Bool

-- The state file after `save`: the text is written beside it, then renamed over it.
pub save :
    (Assoc LoginAttempt → Option String) → SaveIo → BruteForce → Option String → Option String
save to_string io bf file = elim (to_string bf.attempts) [
  | none ↦ file
  | some json ↦ if not io.written then file else if io.renamed then some json else file
]

-- `load`: no file (or one that cannot be read), or its text.
pub load : (String → Option (Assoc LoginAttempt)) → Option String → BruteForce → BruteForce
load from_str none bf = bf
load from_str (some text) bf = elim (from_str text) [
  | none ↦ bf
  | some m ↦ record bf { attempts = m }
]

-- The server's memory and its state file.
pub record Kept : Type 0 where
  pub memory : BruteForce
  pub file : Option String

-- The whole of `record_failure`: the table, then the file.
unfoldable pub record_failure_kept :
    (Assoc LoginAttempt → Option String) → SaveIo → Kept → ℕ → String → Kept × Option (ℤ × String)
record_failure_kept to_string io k now ip =
    if not (is_enabled k.memory.security)
    then (k, none)
    else (let (bf, answer) = record_failure k.memory now ip in
        (record { memory = bf; file = save to_string io bf k.file }, answer))

-- The whole of `clear`.
unfoldable pub clear_kept : (Assoc LoginAttempt → Option String) → SaveIo → Kept → String → Kept
clear_kept to_string io k ip =
    if not (is_enabled k.memory.security)
    then k
    else (let bf = clear k.memory ip in record { memory = bf; file = save to_string io bf k.file })
