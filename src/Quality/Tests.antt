-- ===== src/Quality/Tests.antt =====
-- Runs of server/src/quality.rs, and the theorems at concrete inputs.
use rustykvm.Prelude.{
  ℕ, ◌+◌, ◌*◌, ◌%◌, ◌^◌, ◌≤◌, ◌<◌, ◌≡◌, refl, true, false, some, List, [], ◌∷◌, arith,
}
use rustykvm.Quality.{
  QualityState, new, min_change_interval, set_auto_enabled, get_h264_bitrate, get_mjpeg_quality,
  on_frame_result, target_tier, on_remb_received, reset_stats, get_stats,
}
use rustykvm.Quality.Stability.{Report, on_frame_result_lem}
use rustykvm.Quality.Convergence.{Round, drops, frames, drops_reach_lowest}

controller : Unit {0}
unfolding set_auto_enabled get_h264_bitrate get_mjpeg_quality on_frame_result target_tier
    on_remb_received reset_stats get_stats
controller = tt

-- The source's own `test_auto_toggle`.
auto_toggle :
    (get_h264_bitrate (set_auto_enabled false (new 0)) 3000 ≡ some 3000)
    × (get_mjpeg_quality (set_auto_enabled false (new 0)) 70 ≡ some 70)
    × (get_h264_bitrate (new 0) 3000 ≡ some 2500)
unfolding controller
auto_toggle = (refl, refl, refl)

abbrev struggling : QualityState
struggling = record (new 0) { consecutive_failures = 2; current_tier = 3 }

abbrev seconds : ℕ → ℕ
seconds n = n * 10 ^ 9

third_failure :
    ((on_frame_result (seconds 3) false struggling).0.current_tier ≡ 4)
    × ((on_frame_result (seconds 1) false struggling).0.current_tier ≡ 3)
unfolding controller
third_failure = (refl, refl)

on_frame_result_lem_example :
    let (s', changed) = on_frame_result (seconds 3) false struggling in
    (changed ≡ false → (s'.current_tier ≡ 3) × (s'.last_change ≡ 0))
    × (changed ≡ true
        → (s'.last_change ≡ seconds 3)
          × (0 + min_change_interval ≤ seconds 3)
          × (true ≡ true)
          × ((3 ≤ 3 % 2 ^ 32) × (s'.current_tier ≡ 3 + 1) × (s'.current_tier < 5)))
on_frame_result_lem_example = on_frame_result_lem (seconds 3) false struggling

abbrev reports : List (ℕ × Report)
reports =
    (seconds 3, Report.remb 900000)
    ∷ (seconds 4, Report.remb 5000000)
    ∷ (seconds 5, Report.frame true)
    ∷ []

abbrev rounds : List Round
rounds =
    record { before = 1 ∷ 2 ∷ []; end = seconds 2 }
    ∷ record { before = seconds 3 ∷ seconds 3 ∷ []; end = seconds 4 }
    ∷ record { before = seconds 4 ∷ seconds 5 ∷ []; end = seconds 6 }
    ∷ []

drops_reach_lowest_example : (drops (new 0) (frames rounds)).current_tier + 1 ≡ 5
drops_reach_lowest_example =
    drops_reach_lowest (new 0) 0 rounds refl (omega arith) (omega arith) (omega arith) (omega arith)
      (omega arith)
