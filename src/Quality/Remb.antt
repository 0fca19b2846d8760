-- ===== src/Quality/Remb.antt =====
-- The reaction to the receiver's estimate of the bandwidth.
use rustykvm.Prelude.{ℕ, zero, suc, ◌+◌, ◌≤◌, ◌<◌, ◌≡◌, ◌⊎◌, true, false, ◌&&◌, some, arith, length}
use rustykvm.Quality.{
  QualityTier, quality_tiers, QualityState, min_change_interval, tier_at, can_change, target_tier,
  remb_kbps, on_remb_received,
}

-- The best tier for a bandwidth: no better tier fits it, and it fits unless it is the lowest.
pub record IsBest (kbps i : ℕ) : Type 0 where
  pub better : (j : ℕ) (t : QualityTier) → j < i → tier_at j ≡ some t → kbps < t.h264_bitrate
  pub listed : i < length quality_tiers
  pub fits :
      (t : QualityTier)
      → tier_at i ≡ some t
      → (i + 1 ≡ length quality_tiers) ⊎ (t.h264_bitrate ≤ kbps)

better_than_target :
    (kbps j : ℕ) (t : QualityTier)
    → j < target_tier kbps
    → tier_at j ≡ some t
    → kbps < t.h264_bitrate
unfolding target_tier
better_than_target kbps zero t h e = ground arith
better_than_target kbps (suc zero) t h e = ground arith
better_than_target kbps (suc (suc zero)) t h e = ground arith
better_than_target kbps (suc (suc (suc zero))) t h e = ground arith
better_than_target kbps (suc (suc (suc (suc j)))) t h e = ground arith

target_tier-IsBest : (kbps : ℕ) → IsBest kbps (target_tier kbps)
target_tier-IsBest kbps = record {
  better = better_than_target kbps;
  listed = unfold target_tier in ground arith;
  fits = unfold target_tier in λ t e. ground arith;
}

moves_to_target :
    (now bitrate_bps : ℕ) (s : QualityState)
    → s.auto_enabled && can_change now s ≡ true
    → target_tier (remb_kbps bitrate_bps) ≡ (on_remb_received now bitrate_bps s).current_tier
unfolding on_remb_received
moves_to_target now bitrate_bps s h = ground arith

-- A REMB report, once the interval has passed, moves an automatic controller to the best tier for the
-- reported kbit/s modulo 2 ^ 16; before that, or with auto quality off, it changes nothing.
pub on_remb_received_lem :
    (now bitrate_bps : ℕ) (s : QualityState)
    → (s.auto_enabled && can_change now s ≡ true
        → IsBest (remb_kbps bitrate_bps) (on_remb_received now bitrate_bps s).current_tier)
      × (s.auto_enabled && can_change now s ≡ false → on_remb_received now bitrate_bps s ≡ s)
unfolding on_remb_received
on_remb_received_lem now bitrate_bps s = (
  λ h. rw (← moves_to_target now bitrate_bps s h) (target_tier-IsBest (remb_kbps bitrate_bps)),
  λ h. ground arith,
)

-- The cast to u16 wraps: a receiver that reports from 65.536 to 65.935 Mbit/s, which is more than
-- the best tier needs, is sent the lowest one.
pub remb_wraps :
    (now bitrate_bps : ℕ) (s : QualityState)
    → s.auto_enabled ≡ true
    → s.last_change + min_change_interval ≤ now
    → 65536000 ≤ bitrate_bps
    → bitrate_bps < 65936000
    → (on_remb_received now bitrate_bps s).current_tier + 1 ≡ length quality_tiers
unfolding on_remb_received target_tier
remb_wraps now bitrate_bps s auto passed low high = ground arith
