-- ===== src/Quality/Tiers.antt =====
-- The tier stays inside the table, so no indexing panics, and what the getters answer.
use rustykvm.Prelude.{
  ℕ, ◌<◌, ◌≡◌, ◌≢◌, Bool, none, some, List, [], ◌∷◌, arith, if◌then◌else◌, length, get_elem?-of_lt,
}
use rustykvm.Quality.{
  remb_kbps, QualityTier, quality_tiers, QualityState, new, set_auto_enabled, tier_at,
  get_h264_bitrate, get_mjpeg_quality, on_frame_result, target_tier, on_remb_received, reset_stats,
  get_stats,
}

-- The calls that change the controller.
pub data Event : Type 0 where
  frame : (now : ℕ) (success : Bool) → Event
  remb : (now : ℕ) (bitrate_bps : ℕ) → Event
  toggle : (enabled : Bool) → Event
  reset : Event

pub apply : QualityState → Event → QualityState
apply s (frame now success) = (on_frame_result now success s).0
apply s (remb now bitrate) = on_remb_received now bitrate s
apply s (toggle enabled) = set_auto_enabled enabled s
apply s reset = reset_stats s

pub apply_all : QualityState → List Event → QualityState
apply_all s [] = s
apply_all s (e ∷ es) = apply_all (apply s e) es

abbrev pub InTable : QualityState → Type 0
InTable s = s.current_tier < length quality_tiers

pub target_tier-lt : (kbps : ℕ) → target_tier kbps < length quality_tiers
unfolding target_tier
target_tier-lt kbps = ground arith

apply-InTable : (s : QualityState) (e : Event) → InTable s → InTable (apply s e)
unfolding apply on_frame_result set_auto_enabled reset_stats on_remb_received
apply-InTable s (frame now success) h = ground arith
apply-InTable s (remb now bitrate) h = ground (arith, target_tier-lt (remb_kbps bitrate))
apply-InTable s (toggle enabled) h = ground arith
apply-InTable s reset h = h

apply_all-InTable : (s : QualityState) (es : List Event) → InTable s → InTable (apply_all s es)
unfolding apply_all
apply_all-InTable s [] h = h
apply_all-InTable s (e ∷ es) h = apply_all-InTable (apply s e) es (apply-InTable s e h)

getters_of_InTable :
    (s : QualityState) (manual : ℕ)
    → InTable s
    → (t : QualityTier) × (tier_at s.current_tier ≡ some t)
      × (get_h264_bitrate s manual ≡ some (if s.auto_enabled then t.h264_bitrate else manual))
      × (get_mjpeg_quality s manual ≡ some (if s.auto_enabled then t.mjpeg_quality else manual))
      × (get_stats s ≢ none)
unfolding get_h264_bitrate get_mjpeg_quality get_stats
getters_of_InTable s manual h =
    let (t, at) = get_elem?-of_lt quality_tiers s.current_tier h in
    (t, at, ground arith, ground arith, ground arith)

-- After any frames, REMB reports, toggles and resets, at any times and in any order, the tier of a
-- new controller is one of the table: the getters answer with its values, or with the manual
-- ones when auto quality is off, and no call panics.
pub getters_total :
    (start : ℕ) (es : List Event) (manual : ℕ)
    → let s = apply_all (new start) es in
      (t : QualityTier) × (tier_at s.current_tier ≡ some t)
      × (get_h264_bitrate s manual ≡ some (if s.auto_enabled then t.h264_bitrate else manual))
      × (get_mjpeg_quality s manual ≡ some (if s.auto_enabled then t.mjpeg_quality else manual))
      × (get_stats s ≢ none)
getters_total start es manual =
    getters_of_InTable (apply_all (new start) es) manual
      (apply_all-InTable (new start) es (omega arith))
