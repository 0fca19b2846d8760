-- ===== src/Storage/Health.antt =====
-- storage/src/health.rs: what the kernel's files say of the card, the score, and the cached answer.
pub mod Score
pub mod Cache
pub mod Format
pub mod Refresh
use rustykvm.Prelude.{
  ℕ, zero, suc, ◌+◌, ◌-◌, ◌*◌, ◌/◌, ◌%◌, ◌^◌, ◌≤◌, ◌<◌, min, String, ◌≡◌, refl, sym, ap, ◌∙◌, ◌≢◌,
  ◌↔◌, ◌⊎◌, inl, inr, Bool, true, false, not, ◌&&◌, ◌||◌, Option, none, some, List, [], ◌∷◌, ◌++◌,
  map, arith, eq_iff, str_eq, ltb, leb, ◌==◌, if◌then◌else◌, ltb→lt, lt→ltb, ltb_of_le, leb→le,
  ==_iff, tests, Bool-cases, Option-cases, is_some_and, length, get_elem?, get_elem?-of_lt, get_or,
  take, drop, replicate, any, all, retain, All, sum, sum-append, list_eq, list_eq→eq, list_eq_refl,
  length-append, length-take, length-drop, take-append-drop, length-retain-le,
}
use rustykvm.Prelude.Int.{ℤ, pos, negsuc, int_lt}
use rustykvm.Prelude.Text.{Text, codes, trim, lines, split_whitespace, parse_unsigned, push_digits}

pub data HealthStatus : Type 0 where
  good : HealthStatus
  fair : HealthStatus
  warning : HealthStatus
  fail : HealthStatus
  unknown : HealthStatus

pub data EolStatus : Type 0 where
  normal : EolStatus
  pre_eol_warning : EolStatus
  end_of_life : EolStatus
  eol_unknown : EolStatus

pub record SdHealth : Type 0 where
  pub status : HealthStatus
  pub wear_level : Option ℕ
  pub pre_eol_status : Option EolStatus
  pub io_errors : ℕ
  pub temperature : Option ℤ
  pub power_cycles : Option ℕ
  pub read_count : ℕ
  pub write_count : ℕ
  pub capacity_bytes : ℕ
  pub health_score : ℕ
  pub last_check : ℕ
  pub next_check : ℕ

pub record CachedHealth : Type 0 where
  pub health : SdHealth
  pub cached_at : ℕ

-- What reading a file in time gives, and whether a path exists.
pub record Sysfs : Type 0 where
  pub read : Text → Option Text
  pub try_exists : Text → Bool

abbrev pub cache_ttl_hours : ℕ
cache_ttl_hours = 24

abbrev pub max_io_errors_threshold : ℕ
max_io_errors_threshold = 50

abbrev pub warning_io_errors_threshold : ℕ
warning_io_errors_threshold = 10

abbrev pub and_then {ℓ κ} : {A : Type ℓ} {B : Type κ} → Option A → (A → Option B) → Option B
and_then none f = none
and_then (some a) f = f a

abbrev pub or_zero : Option ℕ → ℕ
or_zero none = 0
or_zero (some n) = n

unfoldable pub read_sysfs_file : Sysfs → Text → Option Text
unfolding trim
read_sysfs_file fs path = and_then (fs.read path) (λ content. some (trim content))

-- `read_u64_from_file` and `read_u32_from_file`
unfoldable pub read_unsigned : ℕ → Sysfs → Text → Option ℕ
unfolding read_sysfs_file parse_unsigned
read_unsigned max fs path = and_then (read_sysfs_file fs path) (λ s. parse_unsigned max s)

abbrev pub negated : Option ℕ → Option ℤ
negated none = none
negated (some zero) = some (pos 0)
negated (some (suc n)) = some (negsuc n)

-- `str::parse` of an i32
unfoldable pub parse_i32 : Text → Option ℤ
unfolding push_digits parse_unsigned
parse_i32 [] = none
parse_i32 (c ∷ []) =
    if c == b'-' then none else and_then (parse_unsigned (2 ^ 31 - 1) (c ∷ [])) (λ n. some (pos n))
parse_i32 (c ∷ d ∷ s) =
    if c == b'-'
    then negated (push_digits (2 ^ 31) 0 (d ∷ s))
    else and_then (parse_unsigned (2 ^ 31 - 1) (c ∷ d ∷ s)) (λ n. some (pos n))

unfoldable pub read_i32_from_file : Sysfs → Text → Option ℤ
unfolding read_sysfs_file parse_i32
read_i32_from_file fs path = and_then (read_sysfs_file fs path) parse_i32

abbrev pub first_existing : (Text → Bool) → List Text → Option Text
first_existing p [] = none
first_existing p (path ∷ rest) =
    let others = first_existing p rest in if p path then some path else others

unfoldable pub find_mmc_device_path : Sysfs → Option Text
find_mmc_device_path fs = first_existing fs.try_exists (
    codes "/sys/class/mmc_host/mmc0/mmc0:0001"
    ∷ codes "/sys/class/mmc_host/mmc0/mmc0:0002"
    ∷ codes "/sys/class/mmc_host/mmc0/mmc0:0003"
    ∷ [])

-- The first word as a number, cut to eight bits.
abbrev pub wear_of : List Text → Option ℕ
wear_of [] = none
wear_of (word ∷ rest) = and_then (parse_unsigned (2 ^ 64 - 1) word) (λ val. some (val % 256))

unfoldable pub read_wear_level : Sysfs → Text → Option ℕ
unfolding read_sysfs_file split_whitespace parse_unsigned
read_wear_level fs mmc_path =
    and_then (read_sysfs_file fs (mmc_path ++ codes "/life_time"))
      (λ content. wear_of (split_whitespace content))

abbrev pub is_one_of : List String → Text → Bool
is_one_of names s = any (λ name. list_eq s (codes name)) names

unfoldable pub eol_of : Text → EolStatus
eol_of s =
    if is_one_of ("1" ∷ "01" ∷ "normal" ∷ []) s
    then normal
    else if is_one_of ("2" ∷ "02" ∷ "pre-eol" ∷ "warning" ∷ []) s
    then pre_eol_warning
    else if is_one_of ("3" ∷ "03" ∷ "eol" ∷ "end of life" ∷ []) s
    then end_of_life
    else eol_unknown

unfoldable pub read_pre_eol_info : Sysfs → Text → Option EolStatus
unfolding read_sysfs_file eol_of
read_pre_eol_info fs mmc_path =
    and_then (read_sysfs_file fs (mmc_path ++ codes "/pre_eol_info")) (λ s. some (eol_of s))

abbrev pub first_of {ℓ} : {A : Type ℓ} → Option A → Option A → Option A
first_of none other = other
first_of (some a) other = some a

unfoldable pub read_temperature : Sysfs → Text → Option ℤ
unfolding read_i32_from_file
read_temperature fs mmc_path =
    first_of (read_i32_from_file fs (mmc_path ++ codes "/temp"))
      (read_i32_from_file fs (mmc_path ++ codes "/temperature"))

unfoldable pub read_power_cycles : Sysfs → Text → Option ℕ
unfolding read_unsigned
read_power_cycles fs mmc_path = read_unsigned (2 ^ 32 - 1) fs (mmc_path ++ codes "/power_cycles")

abbrev pub number_at : ℕ → List Text → ℕ → ℕ
number_at max parts i = or_zero (and_then (get_elem? parts i) (λ s. parse_unsigned max s))

abbrev pub errors_of : List Text → ℕ × ℕ
errors_of parts =
    if ltb (length parts) 14
    then (0, 0)
    else (number_at (2 ^ 32 - 1) parts 4, number_at (2 ^ 32 - 1) parts 10)

abbrev pub or_none_read : Option Text → (Text → ℕ × ℕ) → ℕ × ℕ
or_none_read none f = (0, 0)
or_none_read (some content) f = f content

unfoldable pub read_io_errors : Sysfs → ℕ × ℕ
unfolding read_sysfs_file split_whitespace parse_unsigned
read_io_errors fs =
    or_none_read (read_sysfs_file fs (codes "/sys/class/block/mmcblk0/device/stat"))
      (λ content. errors_of (split_whitespace content))

-- The product wraps in 64 bits.
unfoldable pub read_capacity : Sysfs → ℕ
unfolding read_unsigned
read_capacity fs =
    or_zero (read_unsigned (2 ^ 64 - 1) fs (codes "/sys/block/mmcblk0/size")) * 512 % 2 ^ 64

abbrev pub is_card : List Text → Bool
is_card parts =
    leb 14 (length parts)
    && (list_eq (get_or parts 2 []) (codes "mmcblk0")
        || list_eq (get_or parts 3 []) (codes "mmcblk0"))

unfoldable pub stats_of : List Text → ℕ × ℕ
unfolding split_whitespace parse_unsigned
stats_of [] = (0, 0)
stats_of (line ∷ rest) =
    let parts = split_whitespace line in
    let others = stats_of rest in
    if is_card parts
    then (number_at (2 ^ 64 - 1) parts 5, number_at (2 ^ 64 - 1) parts 9)
    else others

unfoldable pub read_diskstats : Sysfs → ℕ × ℕ
unfolding read_sysfs_file stats_of lines
read_diskstats fs =
    or_none_read (read_sysfs_file fs (codes "/proc/diskstats"))
      (λ content. stats_of (lines content))

abbrev pub is_end_of_life : Option EolStatus → Bool
is_end_of_life (some end_of_life) = true
is_end_of_life _ = false

abbrev pub is_pre_eol_warning : Option EolStatus → Bool
is_pre_eol_warning (some pre_eol_warning) = true
is_pre_eol_warning _ = false

-- What is taken off for each reading.
abbrev pub wear_penalty : Option ℕ → ℕ
wear_penalty none = 0
wear_penalty (some wear) =
    if leb wear 10 then 50 else if leb wear 30 then 25 else if ltb wear 50 then 10 else 0

abbrev pub error_penalty : ℕ → ℕ
error_penalty io_errors =
    if ltb 100 io_errors
    then 40
    else if ltb 50 io_errors
    then 25
    else if ltb 10 io_errors
    then 10
    else if ltb 0 io_errors
    then 3
    else 0

abbrev pub heat_penalty : Option ℤ → ℕ
heat_penalty none = 0
heat_penalty (some t) =
    if int_lt (pos 70) t
    then 20
    else if int_lt (pos 60) t
    then 10
    else if int_lt (pos 50) t
    then 5
    else 0

unfoldable pub compute_health_score : Option ℕ → ℕ → Option ℤ → Option EolStatus → ℕ
compute_health_score wear_level io_errors temp pre_eol =
    if is_end_of_life pre_eol
    then 0
    else (let eol = if is_pre_eol_warning pre_eol then 100 - 30 else 100 in
        min (eol - wear_penalty wear_level - error_penalty io_errors - heat_penalty temp) 100)

abbrev pub status_of : ℕ → HealthStatus
status_of score =
    if leb 80 score && leb score 100
    then good
    else if leb 50 score && leb score 79
    then fair
    else if leb 20 score && leb score 49
    then warning
    else fail

unfoldable pub assess_status : ℕ → ℕ → Option EolStatus → HealthStatus
assess_status score io_errors pre_eol =
    if is_end_of_life pre_eol
    then fail
    else if is_pre_eol_warning pre_eol
    then warning
    else if ltb max_io_errors_threshold io_errors
    then fail
    else if ltb warning_io_errors_threshold io_errors
    then warning
    else status_of score

abbrev pub no_card : ℕ → SdHealth
no_card now = record {
  status = unknown;
  wear_level = none;
  pre_eol_status = none;
  io_errors = 0;
  temperature = none;
  power_cycles = none;
  read_count = 0;
  write_count = 0;
  capacity_bytes = 0;
  health_score = 0;
  last_check = now;
  next_check = now + cache_ttl_hours * 3600;
}

-- The sum of the errors saturates in 32 bits; `now` is in seconds.
abbrev pub card_health : Sysfs → ℕ → Text → SdHealth
card_health fs now mmc_path =
    let wear_level = read_wear_level fs mmc_path in
    let pre_eol = read_pre_eol_info fs mmc_path in
    let temperature = read_temperature fs mmc_path in
    let io_errors = min ((read_io_errors fs).0 + (read_io_errors fs).1) (2 ^ 32 - 1) in
    let score = compute_health_score wear_level io_errors temperature pre_eol in
    record {
      status = assess_status score io_errors pre_eol;
      wear_level = wear_level;
      pre_eol_status = pre_eol;
      io_errors = io_errors;
      temperature = temperature;
      power_cycles = read_power_cycles fs mmc_path;
      read_count = (read_diskstats fs).0;
      write_count = (read_diskstats fs).1;
      capacity_bytes = read_capacity fs;
      health_score = score;
      last_check = now;
      next_check = now + cache_ttl_hours * 3600;
    }

abbrev pub health_at : Sysfs → ℕ → Option Text → SdHealth
health_at fs now none = no_card now
health_at fs now (some mmc_path) = card_health fs now mmc_path

unfoldable pub check_sysfs_health : Sysfs → ℕ → SdHealth
unfolding find_mmc_device_path read_wear_level read_pre_eol_info read_temperature read_io_errors
    read_power_cycles read_diskstats read_capacity compute_health_score assess_status
check_sysfs_health fs now = health_at fs now (find_mmc_device_path fs)

-- The age in whole hours is below the limit; a time that lies ahead is so too.
abbrev pub is_fresh : ℕ → ℕ → Bool
is_fresh now cached_at =
    if ltb now cached_at then true else ltb ((now - cached_at) / 3600) cache_ttl_hours

-- The cache is what its file reads as; whether writing it succeeds is an outcome, and a write
-- that fails leaves `left`.
pub data SaveCache : Type 0 where
  saved : SaveCache
  not_saved : Option CachedHealth → SaveCache

abbrev pub save_cached_health : SaveCache → ℕ → SdHealth → Option CachedHealth
save_cached_health saved now health = some (record { health = health; cached_at = now })
save_cached_health (not_saved left) now health = left

abbrev pub checked : SaveCache → ℕ → SdHealth → Option CachedHealth → SdHealth × Option CachedHealth
checked o now fresh none = (fresh, save_cached_health o now fresh)
checked o now fresh (some c) =
    if is_fresh now c.cached_at then (c.health, some c) else (fresh, save_cached_health o now fresh)

unfoldable pub check_health :
    SaveCache → Sysfs → ℕ → Option CachedHealth → SdHealth × Option CachedHealth
unfolding check_sysfs_health
check_health o fs now cache = checked o now (check_sysfs_health fs now) cache
