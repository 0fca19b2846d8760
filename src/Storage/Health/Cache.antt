-- ===== src/Storage/Health/Cache.antt =====
-- How long an answer is kept.
use rustykvm.Prelude.{ℕ, ◌+◌, ◌≤◌, ◌<◌, ◌≡◌, refl, true, false, none, arith}
use rustykvm.Storage.Health.{Sysfs, check_sysfs_health, is_fresh, SaveCache, saved, check_health}

fresh_for_a_day : (now t : ℕ) → now ≤ t → t < now + 86400 → is_fresh t now ≡ true
fresh_for_a_day now t a b = ground arith

stale_after_a_day : (now t : ℕ) → now + 86400 ≤ t → is_fresh t now ≡ false
stale_after_a_day now t a = ground arith

-- An answer is given for 24 hours.
pub check_health-cached :
    (fs later : Sysfs) (now t : ℕ) (o : SaveCache)
    → now ≤ t
    → let first = check_health saved fs now none in
      (first.0 ≡ check_sysfs_health fs now)
      × (t < now + 86400 → check_health o later t first.1 ≡ first)
      × (now + 86400 ≤ t → (check_health o later t first.1).0 ≡ check_sysfs_health later t)
unfolding check_health
check_health-cached fs later now t o a =
    (refl, λ b. rw (fresh_for_a_day now t a b) refl, λ b. rw (stale_after_a_day now t b) refl)
