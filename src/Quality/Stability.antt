-- ===== src/Quality/Stability.antt =====
-- The tier changes by one step at a time and at most once in MIN_CHANGE_INTERVAL.
use rustykvm.Prelude.{
  ℕ, ◌+◌, ◌-◌, ◌*◌, ◌%◌, ◌^◌, ◌≤◌, ◌<◌, ◌≡◌, Bool, true, false, List, [], ◌∷◌, arith, ◌==◌,
  if◌then◌else◌, length,
}
use rustykvm.Quality.{
  quality_tiers, QualityState, min_change_interval, increase_threshold, decrease_threshold,
  on_frame_result, on_remb_received,
}

-- What a frame does to the tier: nothing; one step to a better one, after a sent frame that completes
-- the run of successes; or one step to a worse one, after a dropped frame that completes the run
-- of failures. A change needs the interval to have passed, and restarts it.
pub on_frame_result_lem :
    (now : ℕ) (success : Bool) (s : QualityState)
    → let (s', changed) = on_frame_result now success s in
      (changed ≡ false → (s'.current_tier ≡ s.current_tier) × (s'.last_change ≡ s.last_change))
      × (changed ≡ true
          → (s'.last_change ≡ now)
            × (s.last_change + min_change_interval ≤ now)
            × (s.auto_enabled ≡ true)
            × (if success
                then ((s'.current_tier + 1 ≡ s.current_tier)
                    × (increase_threshold ≤ (s.consecutive_successes + 1) % 2 ^ 32))
                else ((decrease_threshold ≤ (s.consecutive_failures + 1) % 2 ^ 32)
                    × (s'.current_tier ≡ s.current_tier + 1)
                    × (s'.current_tier < length quality_tiers))))
unfolding on_frame_result
on_frame_result_lem now true s = ground arith
on_frame_result_lem now false s = ground arith

-- Frames and REMB reports as they come, each at its time.
pub data Report : Type 0 where
  frame : (success : Bool) → Report
  remb : (bitrate_bps : ℕ) → Report

pub report : ℕ → Report → QualityState → QualityState
report now (frame success) s = (on_frame_result now success s).0
report now (remb bitrate) s = on_remb_received now bitrate s

pub report_all : QualityState → List (ℕ × Report) → QualityState
report_all s [] = s
report_all s ((now, r) ∷ rs) = report_all (report now r s) rs

-- How often the tier differs before and after a report.
pub changes : QualityState → List (ℕ × Report) → ℕ
changes s [] = 0
changes s ((now, r) ∷ rs) =
    (if (report now r s).current_tier == s.current_tier then 0 else 1) + changes (report now r s) rs

-- No report comes before `start` or after `end`.
abbrev pub IsWithin : ℕ → List (ℕ × Report) → Type 0
IsWithin end [] = Unit
IsWithin end ((now, r) ∷ rs) = (now ≤ end) × IsWithin end rs

report_step :
    (now end : ℕ) (r : Report) (s : QualityState)
    → s.last_change ≤ end
    → now ≤ end
    → ((if (report now r s).current_tier == s.current_tier then 0 else 1) * min_change_interval
          + s.last_change
        ≤ (report now r s).last_change)
      × ((report now r s).last_change ≤ end)
unfolding report on_frame_result on_remb_received
report_step now end (frame success) s = ground arith
report_step now end (remb bitrate) s = ground arith

changes-add-last_change :
    (end : ℕ) (s : QualityState) (rs : List (ℕ × Report))
    → s.last_change ≤ end
    → IsWithin end rs
    → changes s rs * min_change_interval + s.last_change ≤ end
unfolding changes
changes-add-last_change end s [] h w = omega arith
changes-add-last_change end s ((now, r) ∷ rs) h (early, w) =
    let step = report_step now end r s h early in
    let rest = changes-add-last_change end (report now r s) rs step.1 w in
    omega (arith, step.0, rest)

-- Over any reports, up to the instant `end`, the tier changes at most once for every
-- MIN_CHANGE_INTERVAL since the last change before them.
pub changes_bounded :
    (end : ℕ) (s : QualityState) (rs : List (ℕ × Report))
    → s.last_change ≤ end
    → IsWithin end rs
    → changes s rs * min_change_interval ≤ end - s.last_change
changes_bounded end s rs h w = omega (arith, changes-add-last_change end s rs h w)
