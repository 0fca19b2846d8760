-- ===== src/Storage/Health/Refresh.antt =====
-- server/src/storage_health.rs: the handlers of the health, and the copy of it that the server keeps.
use rustykvm.Prelude.{ℕ, ◌+◌, ◌≤◌, ◌<◌, String, ◌≡◌, ap, ◌∙◌, Option, none, some}
use rustykvm.Prelude.Int.{ℤ}
use rustykvm.Storage.Health.Cache.{check_health-cached}
use rustykvm.Storage.Health.{
  HealthStatus, good, fair, warning, fail, unknown, Sysfs, SdHealth, CachedHealth, SaveCache, saved,
  check_health, check_sysfs_health,
}

-- The server's copy, and the cache file of the storage crate.
pub record HealthState : Type 0 where
  pub cached_health : Option SdHealth
  pub file : Option CachedHealth

-- `HealthStatus::to_string`
abbrev pub status_text : HealthStatus → String
status_text good = "GOOD"
status_text fair = "FAIR"
status_text warning = "WARNING"
status_text fail = "FAIL"
status_text unknown = "UNKNOWN"

-- `last_check` is shown as a date, which is left out.
pub record HealthResponse : Type 0 where
  pub status : String
  pub wear_level : Option ℕ
  pub health_score : ℕ
  pub temperature : Option ℤ
  pub io_errors : ℕ

module _ (o : SaveCache) (fs : Sysfs) (now : ℕ) where
  -- `check_health_with_logging` adds a log message to `check_health`.
  unfoldable pub get_or_refresh_health : HealthState → SdHealth × HealthState
  unfolding check_health
  get_or_refresh_health s =
      let (health, file) = check_health o fs now s.file in
      (health, record { cached_health = some health; file = file })

  unfoldable pub health_status_handler : HealthState → String × HealthState
  unfolding get_or_refresh_health
  health_status_handler s =
      let (health, next) = get_or_refresh_health s in (status_text health.status, next)

  unfoldable pub health_handler : HealthState → HealthResponse × HealthState
  unfolding get_or_refresh_health
  health_handler s =
      let (health, next) = get_or_refresh_health s in
      (
        record {
          status = status_text health.status;
          wear_level = health.wear_level;
          health_score = health.health_score;
          temperature = health.temperature;
          io_errors = health.io_errors;
        },
        next,
      )

  unfoldable pub detailed_health_handler : HealthState → SdHealth × HealthState
  unfolding get_or_refresh_health
  detailed_health_handler s = get_or_refresh_health s

  unfoldable pub refresh_health_handler : HealthState → SdHealth × HealthState
  unfolding get_or_refresh_health
  refresh_health_handler s = get_or_refresh_health (record { cached_health = none; file = s.file })

-- After an answer that was read from the card and saved, a refresh answers the same for 24 hours,
-- whatever the card's files say by then; from 24 hours on it reads them again.
pub refresh_after_check :
    (o : SaveCache) (fs later : Sysfs) (now t : ℕ) (kept : Option SdHealth)
    → now ≤ t
    → let first = health_handler saved fs now (record { cached_health = kept; file = none }) in
      (t < now + 86400 → (refresh_health_handler o later t first.1).0 ≡ check_sysfs_health fs now)
      × (now + 86400 ≤ t
          → (refresh_health_handler o later t first.1).0 ≡ check_sysfs_health later t)
unfolding refresh_health_handler health_handler get_or_refresh_health
refresh_after_check o fs later now t kept a =
    let (first, early, late) = check_health-cached fs later now t o a in
    (λ b. ap (λ r. r.0) (early b) ∙ first, late)
