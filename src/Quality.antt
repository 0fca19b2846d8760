-- ===== src/Quality.antt =====
-- server/src/quality.rs: the adaptive quality controller. Instants are nanoseconds of a monotone
-- clock, read by the caller; each method runs under the write lock, so it is one step. The u32 and
-- u64 counters wrap, as the release profile has them. `drop_rate`, a float, is not modelled.
pub mod Tiers
pub mod Stability
pub mod Convergence
pub mod Remb
mod Tests
use rustykvm.Prelude.{
  ℕ, zero, suc, ◌+◌, ◌-◌, ◌*◌, ◌/◌, ◌%◌, ◌^◌, ◌≤◌, ◌<◌, min, String, ◌≡◌, refl, sym, ap, ◌∙◌, ◌≢◌,
  ◌↔◌, ◌⊎◌, inl, inr, Bool, true, false, not, ◌&&◌, ◌||◌, Option, none, some, List, [], ◌∷◌, ◌++◌,
  map, arith, eq_iff, str_eq, ltb, leb, ◌==◌, if◌then◌else◌, ltb→lt, lt→ltb, ltb_of_le, leb→le,
  ==_iff, tests, Bool-cases, Option-cases, is_some_and, length, get_elem?, get_or, take, drop,
  replicate, any, all, retain, All, sum, sum-append, list_eq, length-append, length-take,
  length-drop, take-append-drop, length-retain-le,
}

pub record QualityTier : Type 0 where
  pub name : String
  pub h264_bitrate : ℕ
  pub mjpeg_quality : ℕ

abbrev tier : String → ℕ → ℕ → QualityTier
tier name bitrate quality = record { name = name; h264_bitrate = bitrate; mjpeg_quality = quality }

abbrev pub quality_tiers : List QualityTier
quality_tiers =
    tier "ultra" 4000 95
    ∷ tier "high" 2500 80
    ∷ tier "medium" 1500 65
    ∷ tier "low" 800 45
    ∷ tier "lowest" 400 30
    ∷ []

abbrev pub default_tier : ℕ
default_tier = 1

abbrev pub increase_threshold : ℕ
increase_threshold = 90

abbrev pub decrease_threshold : ℕ
decrease_threshold = 3

-- Two seconds.
abbrev pub min_change_interval : ℕ
min_change_interval = 2 * 10 ^ 9

pub record QualityState : Type 0 where
  pub auto_enabled : Bool
  pub current_tier : ℕ
  pub consecutive_successes : ℕ
  pub consecutive_failures : ℕ
  pub last_change : ℕ
  pub total_frames : ℕ
  pub dropped_frames : ℕ

-- `QualityState::new` at the instant `now`.
abbrev pub new : ℕ → QualityState
new now = record {
  auto_enabled = true;
  current_tier = default_tier;
  consecutive_successes = 0;
  consecutive_failures = 0;
  last_change = now;
  total_frames = 0;
  dropped_frames = 0;
}

unfoldable pub set_auto_enabled : Bool → QualityState → QualityState
set_auto_enabled enabled s =
    if enabled
    then record s {
      auto_enabled = true;
      current_tier = default_tier;
      consecutive_successes = 0;
      consecutive_failures = 0;
    }
    else record s { auto_enabled = false }

-- `QUALITY_TIERS[i]`; `none` is a panic.
abbrev pub tier_at : ℕ → Option QualityTier
tier_at i = get_elem? quality_tiers i

abbrev field_of : (QualityTier → ℕ) → Option QualityTier → Option ℕ
field_of f none = none
field_of f (some t) = some (f t)

unfoldable pub get_h264_bitrate : QualityState → ℕ → Option ℕ
get_h264_bitrate s manual_bitrate =
    if s.auto_enabled
    then field_of (λ t. t.h264_bitrate) (tier_at s.current_tier)
    else some manual_bitrate

unfoldable pub get_mjpeg_quality : QualityState → ℕ → Option ℕ
get_mjpeg_quality s manual_quality =
    if s.auto_enabled
    then field_of (λ t. t.mjpeg_quality) (tier_at s.current_tier)
    else some manual_quality

-- `now.duration_since(last_change) >= MIN_CHANGE_INTERVAL`
abbrev pub can_change : ℕ → QualityState → Bool
can_change now s = leb min_change_interval (now - s.last_change)

-- The counters of every frame.
count_frame : Bool → QualityState → QualityState
count_frame success s = record s {
  total_frames = (s.total_frames + 1) % 2 ^ 64;
  dropped_frames = if success then s.dropped_frames else (s.dropped_frames + 1) % 2 ^ 64;
}

-- The branch of a frame that was sent.
frame_sent : ℕ → QualityState → QualityState × Bool
frame_sent now s =
    let t = record s {
      consecutive_successes = (s.consecutive_successes + 1) % 2 ^ 32;
      consecutive_failures = 0;
    } in
    if can_change now t && leb increase_threshold t.consecutive_successes && ltb 0 t.current_tier
    then (
      record t { current_tier = t.current_tier - 1; consecutive_successes = 0; last_change = now },
      true,
    )
    else (t, false)

-- The branch of a frame that was dropped.
frame_dropped : ℕ → QualityState → QualityState × Bool
frame_dropped now s =
    let t = record s {
      consecutive_failures = (s.consecutive_failures + 1) % 2 ^ 32;
      consecutive_successes = 0;
    } in
    if can_change now t
      && leb decrease_threshold t.consecutive_failures
      && ltb t.current_tier (length quality_tiers - 1)
    then (
      record t { current_tier = t.current_tier + 1; consecutive_failures = 0; last_change = now },
      true,
    )
    else (t, false)

-- The state after a frame, and whether the tier changed.
unfoldable pub on_frame_result : ℕ → Bool → QualityState → QualityState × Bool
unfolding count_frame frame_sent frame_dropped
on_frame_result now success s =
    if not s.auto_enabled
    then (s, false)
    else if success
    then frame_sent now (count_frame true s)
    else frame_dropped now (count_frame false s)

-- `iter().position(|t| t.h264_bitrate <= kbps)`
position_from : ℕ → List QualityTier → ℕ → Option ℕ
position_from i [] kbps = none
position_from i (t ∷ ts) kbps =
    if leb t.h264_bitrate kbps then some i else position_from (i + 1) ts kbps

abbrev or_lowest : Option ℕ → ℕ
or_lowest none = length quality_tiers - 1
or_lowest (some i) = i

pub target_tier : ℕ → ℕ
unfolding position_from
target_tier kbps = or_lowest (position_from 0 quality_tiers kbps)

-- `(bitrate_bps / 1000) as u16`
abbrev pub remb_kbps : ℕ → ℕ
remb_kbps bitrate_bps = bitrate_bps / 1000 % 2 ^ 16

unfoldable pub on_remb_received : ℕ → ℕ → QualityState → QualityState
on_remb_received now bitrate_bps s =
    let target = target_tier (remb_kbps bitrate_bps) in
    if not s.auto_enabled
    then s
    else if not (target == s.current_tier) && can_change now s
    then record s {
      current_tier = target;
      last_change = now;
      consecutive_successes = 0;
      consecutive_failures = 0;
    }
    else s

unfoldable pub reset_stats : QualityState → QualityState
reset_stats s = record s { total_frames = 0; dropped_frames = 0 }

pub record QualityStats : Type 0 where
  pub auto_enabled : Bool
  pub tier_name : String
  pub current_tier_index : ℕ
  pub h264_bitrate : ℕ
  pub mjpeg_quality : ℕ
  pub total_frames : ℕ
  pub dropped_frames : ℕ

-- `get_stats`, which indexes the table; `none` is a panic.
unfoldable pub get_stats : QualityState → Option QualityStats
get_stats s = elim (tier_at s.current_tier) [
  | none ↦ none
  | some t ↦ some (record {
    auto_enabled = s.auto_enabled;
    tier_name = t.name;
    current_tier_index = s.current_tier;
    h264_bitrate = t.h264_bitrate;
    mjpeg_quality = t.mjpeg_quality;
    total_frames = s.total_frames;
    dropped_frames = s.dropped_frames;
  })
]
