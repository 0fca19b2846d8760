-- ===== src/Passkey/Recovery.antt =====
-- server/src/passkey/recovery.rs: one-time recovery codes and the limit on attempts with them.
-- Unicode's upper-case tables are a parameter; the random numbers are an argument. The limit is counted
-- under its lock; the file of codes is loaded, scanned and saved under none, and the calls are taken one
-- after the other: those that overlap are not modelled.
pub mod RateLimit
pub mod Codes
pub mod Consuming
mod Tests
use rustykvm.Prelude.{
  ℕ, zero, suc, ◌+◌, ◌-◌, ◌*◌, ◌/◌, ◌%◌, ◌^◌, ◌≤◌, ◌<◌, min, String, ◌≡◌, refl, sym, ap, ◌∙◌, ◌≢◌,
  ◌↔◌, ◌⊎◌, inl, inr, Bool, true, false, not, ◌&&◌, ◌||◌, Option, none, some, List, [], ◌∷◌, ◌++◌,
  map, arith, eq_iff, str_eq, ltb, leb, ◌==◌, if◌then◌else◌, ltb→lt, lt→ltb, ltb_of_le, leb→le,
  ==_iff, tests, Bool-cases, Option-cases, is_some_and, length, get_elem?, get_elem?-of_lt, get_or,
  take, drop, replicate, any, all, retain, All, sum, sum-append, list_eq, list_eq→eq, list_eq_refl,
  length-append, length-take, length-drop, take-append-drop, length-retain-le,
}
use rustykvm.Prelude.Result.{Result, ok, err, FileWrite, is_complete, written_file}
use rustykvm.Prelude.Assoc.{Assoc, lookup, insert}
use rustykvm.Prelude.Text.{Text, codes, trim, to_uppercase, without_dashes}

abbrev pub rate_limit_window_seconds : ℕ
rate_limit_window_seconds = 900

abbrev pub max_attempts_per_window : ℕ
max_attempts_per_window = 5

pub record RateLimitState : Type 0 where
  pub last_attempt : ℕ
  pub attempts : ℕ

abbrev pub RateLimitStore : Type 0
RateLimitStore = Assoc RateLimitState

-- `or_insert(RateLimitState { last_attempt: 0, attempts: 0 })`
abbrev pub entry_of : String → RateLimitStore → RateLimitState
entry_of ip store = elim (lookup ip store) [
  | none ↦ record { last_attempt = 0; attempts = 0 }
  | some e ↦ e
]

-- One attempt on an entry: the entry after it, and whether it is allowed.
pub attempt : ℕ → RateLimitState → RateLimitState × Bool
attempt now e =
    if ltb rate_limit_window_seconds (now - e.last_attempt)
    then (record { last_attempt = now; attempts = 1 }, true)
    else if ltb e.attempts max_attempts_per_window
    then (record e { attempts = e.attempts + 1 }, true)
    else (e, false)

unfoldable pub check_rate_limit : ℕ → String → RateLimitStore → RateLimitStore × Bool
unfolding attempt
check_rate_limit now ip store =
    let (e, allowed) = attempt now (entry_of ip store) in (insert ip e store, allowed)

abbrev pub charset : Text
charset = codes "ABCDEFGHJKLMNPQRSTUVWXYZ23456789"

-- `count` characters, from the random number `random i` for the place `i` on.
pub random_chars : (ℕ → ℕ) → ℕ → ℕ → Text
random_chars random i zero = []
random_chars random i (suc count) = get_or charset (random i) 0 ∷ random_chars random (i + 1) count

-- Four groups of four characters.
unfoldable pub generate_recovery_code : (ℕ → ℕ) → Text
unfolding random_chars
generate_recovery_code random =
    let code = random_chars random 0 16 in
    take 4 code
    ++ (b'-'
        ∷ (take 4 (drop 4 code)
            ++ (b'-' ∷ (take 4 (drop 8 code) ++ (b'-' ∷ take 4 (drop 12 code))))))

pub record RecoveryCode : Type 0 where
  pub code : Text
  pub used : Bool

-- `generate_recovery_codes`: `random k` is the source for the code `k`.
unfoldable pub generate_codes : (ℕ → ℕ → ℕ) → ℕ → ℕ → List RecoveryCode
generate_codes random k zero = []
generate_codes random k (suc count) =
    record { code = generate_recovery_code (random k); used = false }
    ∷ generate_codes random (k + 1) count

-- `get_remaining_codes_count` and `format_recovery_codes_for_display` of a loaded file.
pub unused_count : List RecoveryCode → ℕ
unused_count [] = 0
unused_count (c ∷ cs) = (if c.used then 0 else 1) + unused_count cs

unfoldable pub codes_for_display : List RecoveryCode → List Text
codes_for_display [] = []
codes_for_display (c ∷ cs) =
    let rest = codes_for_display cs in if c.used then rest else c.code ∷ rest

-- `input_code.trim().to_uppercase().replace('-', "")`
abbrev pub normalize : (ℕ → Text) → Text → Text
normalize tables input = without_dashes (to_uppercase tables (trim input))

abbrev pub matches : Text → RecoveryCode → Bool
matches normalized c = list_eq (without_dashes c.code) normalized

-- The first loop: whether an unused code matches, and `remaining`.
unfoldable pub scan : Text → List RecoveryCode → Bool × ℕ
scan normalized [] = (false, 0)
scan normalized (c ∷ cs) =
    let (found, remaining) = scan normalized cs in
    if c.used
    then (found, remaining + 1)
    else if matches normalized c
    then (true, remaining)
    else (found, remaining + 1)

-- The second loop: the first unused code that matches becomes used.
pub consume : Text → List RecoveryCode → List RecoveryCode
consume normalized [] = []
consume normalized (c ∷ cs) =
    if matches normalized c && not c.used
    then record c { used = true } ∷ cs
    else c ∷ consume normalized cs

-- The rate limits in memory, and the file of codes (`none`: it cannot be loaded).
pub record Recovery : Type 0 where
  pub limits : RateLimitStore
  pub file : Option (List RecoveryCode)

-- Why the call fails: the seconds to wait, a file that cannot be loaded, or one that cannot be saved.
pub data Failure : Type 0 where
  too_many_attempts : (wait_time : ℕ) → Failure
  cannot_load cannot_save : Failure

-- What the file system answers to `save_recovery_codes`: the write, then the permissions.
pub record SaveIo : Type 0 where
  pub written : FileWrite (List RecoveryCode)
  pub permitted : Bool

-- The file after the scan, and the answer.
unfoldable pub redeem :
    SaveIo → Text → List RecoveryCode → Option (List RecoveryCode) × Result Failure (Bool × ℕ)
unfolding scan
redeem io normalized cs =
    let (found, remaining) = scan normalized cs in
    if not found then (some cs, ok (false, remaining)) else (
      written_file io.written (consume normalized cs),
      if is_complete io.written && io.permitted then ok (true, remaining) else err cannot_save,
    )

-- `now` is read once more for the wait; the clock of that second reading is `later`.
unfoldable pub validate_and_consume_code :
    (ℕ → Text) → SaveIo → ℕ → ℕ → String → Text → Recovery → Recovery × Result Failure (Bool × ℕ)
validate_and_consume_code tables io now later ip input r =
    let (limits, allowed) = check_rate_limit now ip r.limits in
    if not allowed
    then (
      record r { limits = limits },
      err (
          too_many_attempts
            (rate_limit_window_seconds - (later - (entry_of ip limits).last_attempt))),
    )
    else (elim r.file [
      | none ↦ (record r { limits = limits }, err cannot_load)
      | some cs ↦
          let (file, answer) = redeem io (normalize tables input) cs in
          (record { limits = limits; file = file }, answer)
    ])
