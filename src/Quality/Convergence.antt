-- ===== src/Quality/Convergence.antt =====
-- Sustained congestion drives the quality to the lowest tier.
use rustykvm.Prelude.{
  ℕ, ◌+◌, ◌^◌, ◌≤◌, ◌<◌, ◌≡◌, refl, ◌⊎◌, true, false, List, [], ◌∷◌, ◌++◌, arith, length, All,
  length-append,
}
use rustykvm.Quality.{
  quality_tiers, QualityState, min_change_interval, decrease_threshold, on_frame_result,
}

-- Frames dropped at the given times.
pub drops : QualityState → List ℕ → QualityState
drops s [] = s
drops s (t ∷ ts) = drops (on_frame_result t false s).0 ts

-- One dropped frame.
record Dropped (t : ℕ) (s s' : QualityState) : Type 0 where
  auto : s'.auto_enabled ≡ true
  small : s'.current_tier < length quality_tiers
  latest : (s'.last_change ≡ s.last_change) ⊎ (s'.last_change ≡ t)
  moved :
      (s.current_tier < s'.current_tier)
      ⊎ ((s'.current_tier ≡ s.current_tier)
          × (s'.last_change ≡ s.last_change)
          × (s'.consecutive_failures ≡ s.consecutive_failures + 1))
  counts : s'.consecutive_failures ≤ s.consecutive_failures + 1
  due :
      s.last_change + min_change_interval ≤ t
      → decrease_threshold ≤ s.consecutive_failures + 1
      → s.current_tier + 1 < length quality_tiers
      → s.current_tier < s'.current_tier

drop_lem :
    (t : ℕ) (s : QualityState)
    → s.auto_enabled ≡ true
    → s.current_tier < length quality_tiers
    → s.consecutive_failures + 1 < 2 ^ 32
    → Dropped t s (on_frame_result t false s).0
unfolding on_frame_result
drop_lem t s auto small few = ground arith

-- Any number of dropped frames, none of them later than `end`.
record Sank (end n : ℕ) (s s' : QualityState) : Type 0 where
  auto : s'.auto_enabled ≡ true
  small : s'.current_tier < length quality_tiers
  early : s'.last_change ≤ end
  moved :
      (s.current_tier < s'.current_tier)
      ⊎ ((s'.current_tier ≡ s.current_tier)
          × (s'.last_change ≡ s.last_change)
          × (s'.consecutive_failures ≡ s.consecutive_failures + n))
  counts : s'.consecutive_failures ≤ s.consecutive_failures + n

abbrev IsBefore : ℕ → List ℕ → Type 0
IsBefore end ts = All (λ t. t ≤ end) ts

drops-Sank :
    (end : ℕ) (s : QualityState) (ts : List ℕ)
    → s.auto_enabled ≡ true
    → s.current_tier < length quality_tiers
    → s.last_change ≤ end
    → IsBefore end ts
    → s.consecutive_failures + length ts < 2 ^ 32
    → Sank end (length ts) s (drops s ts)
unfolding drops
drops-Sank end s [] auto small early b few = ground arith
drops-Sank end s (t ∷ ts) auto small early (b, bs) few =
    let s' = (on_frame_result t false s).0 in
    let d = drop_lem t s auto small (omega arith) in
    let r =
      drops-Sank end s' ts d.auto d.small (ground (arith, d.latest)) bs (omega (arith, d.counts)) in
    ground (arith, d, r)

drops-append : (s : QualityState) (ts us : List ℕ) → drops s (ts ++ us) ≡ drops (drops s ts) us
unfolding drops
drops-append s [] us = refl
drops-append s (t ∷ ts) us = drops-append (on_frame_result t false s).0 ts us

-- A round: at least two dropped frames, and one more at the instant `end`.
pub record Round : Type 0 where
  pub before : List ℕ
  pub end : ℕ

abbrev pub frames : List Round → List ℕ
frames [] = []
frames (r ∷ rs) = r.before ++ r.end ∷ frames rs

-- No frame of a round is later than its end, and each round ends at least MIN_CHANGE_INTERVAL after
-- the one before it.
abbrev pub AreRounds : ℕ → List Round → Type 0
AreRounds last [] = Unit
AreRounds last (r ∷ rs) =
    All (λ t. t ≤ r.end) r.before
    × (decrease_threshold ≤ length r.before + 1)
    × (last + min_change_interval ≤ r.end)
    × AreRounds r.end rs

record Rounded (end n : ℕ) (s s' : QualityState) : Type 0 where
  auto : s'.auto_enabled ≡ true
  small : s'.current_tier < length quality_tiers
  early : s'.last_change ≤ end
  lower : (s'.current_tier + 1 ≡ length quality_tiers) ⊎ (s.current_tier < s'.current_tier)
  counts : s'.consecutive_failures ≤ s.consecutive_failures + n

round_sinks :
    (s : QualityState) (last : ℕ) (r : Round)
    → s.auto_enabled ≡ true
    → s.current_tier < length quality_tiers
    → s.last_change ≤ last
    → last + min_change_interval ≤ r.end
    → decrease_threshold ≤ length r.before + 1
    → All (λ t. t ≤ r.end) r.before
    → s.consecutive_failures + length r.before + 1 < 2 ^ 32
    → Rounded r.end (length r.before + 1) s (on_frame_result r.end false (drops s r.before)).0
round_sinks s last r auto small early far three before few =
    let m = drops s r.before in
    let sank = drops-Sank r.end s r.before auto small (omega arith) before (omega arith) in
    let d = drop_lem r.end m sank.auto sank.small (omega (arith, sank.counts)) in
    ground (arith, sank, d)

-- Whenever auto quality is on and dropped frames keep coming, in rounds of three or more whose ends are
-- at least MIN_CHANGE_INTERVAL apart, as many rounds as there are tiers below the current one
-- bring the quality to the lowest tier.
pub drops_reach_lowest :
    (s : QualityState) (last : ℕ) (rs : List Round)
    → s.auto_enabled ≡ true
    → s.current_tier < length quality_tiers
    → s.last_change ≤ last
    → AreRounds last rs
    → s.consecutive_failures + length (frames rs) < 2 ^ 32
    → length quality_tiers ≤ s.current_tier + 1 + length rs
    → (drops s (frames rs)).current_tier + 1 ≡ length quality_tiers
unfolding drops
drops_reach_lowest s last [] auto small early rounds few enough = omega arith
drops_reach_lowest s last (r ∷ rs) auto small early (before, three, far, rest) few enough =
    let n = length-append r.before (r.end ∷ frames rs) in
    let s' = (on_frame_result r.end false (drops s r.before)).0 in
    let d = round_sinks s last r auto small early far three before (omega (arith, n)) in
    rw drops-append (
      drops_reach_lowest s' r.end rs d.auto d.small d.early rest (omega (arith, n, d.counts))
        (ground (arith, d.lower)))
