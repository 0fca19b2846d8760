-- ===== src/Storage/Health/Score.antt =====
-- What the score and the status say of the readings.
use rustykvm.Prelude.{
  ℕ, ◌-◌, ◌≤◌, min, ◌≡◌, refl, inl, inr, Bool, true, false, Option, none, some, arith, ltb, leb,
  if◌then◌else◌, Bool-cases,
}
use rustykvm.Prelude.Int.{ℤ}
use rustykvm.Storage.Health.{
  HealthStatus, good, fail, EolStatus, is_end_of_life, is_pre_eol_warning, wear_penalty,
  error_penalty, heat_penalty, compute_health_score, status_of, assess_status,
}

error_penalty-le : (e e' : ℕ) → e ≤ e' → error_penalty e ≤ error_penalty e'
error_penalty-le e e' h = ground arith

-- More errors never give a higher score, and no score is above 100.
pub compute_health_score-le :
    (wear_level : Option ℕ) (e e' : ℕ) (temp : Option ℤ) (pre_eol : Option EolStatus)
    → e ≤ e'
    → (compute_health_score wear_level e' temp pre_eol
        ≤ compute_health_score wear_level e temp pre_eol)
      × (compute_health_score wear_level e temp pre_eol ≤ 100)
unfolding compute_health_score
compute_health_score-le wear_level e e' temp pre_eol h =
    let p = error_penalty-le e e' h in
    elim (Bool-cases (is_end_of_life pre_eol)) [
      | inl t ↦ rw t (omega arith, omega arith)
      | inr t ↦ elim (Bool-cases (is_pre_eol_warning pre_eol)) [
        | inl u ↦ rw (t, u) (omega (arith, p), omega (arith, p))
        | inr u ↦ rw (t, u) (omega (arith, p), omega (arith, p))
      ]
    ]

abbrev pub is_worn : Option ℕ → Bool
is_worn none = false
is_worn (some wear) = leb wear 30

-- Nothing is wrong with the readings: no end of life is near, at most ten errors, and the wear level is
-- not read or above 30.
abbrev pub IsHealthy : Option ℕ → ℕ → Option EolStatus → Type 0
IsHealthy wear_level io_errors pre_eol =
    (is_end_of_life pre_eol ≡ false)
    × (is_pre_eol_warning pre_eol ≡ false)
    × (io_errors ≤ 10)
    × (is_worn wear_level ≡ false)

worn_costs : (wear_level : Option ℕ) → wear_penalty wear_level ≤ 20 → is_worn wear_level ≡ false
worn_costs none h = refl
worn_costs (some wear) h = ground arith

status_good : (score : ℕ) → status_of score ≡ good → 80 ≤ score
status_good score h = ground arith

-- A card whose score is assessed as good has readings with nothing wrong.
pub assessed_good-IsHealthy :
    (wear_level : Option ℕ) (io_errors : ℕ) (temp : Option ℤ) (pre_eol : Option EolStatus)
    → assess_status (compute_health_score wear_level io_errors temp pre_eol) io_errors pre_eol
      ≡ good
    → IsHealthy wear_level io_errors pre_eol
unfolding compute_health_score assess_status
assessed_good-IsHealthy wear_level io_errors temp pre_eol h =
    good_parts (is_end_of_life pre_eol) (is_pre_eol_warning pre_eol) h
  where
    score_from : ℕ → ℕ
    score_from eol =
        min (eol - wear_penalty wear_level - error_penalty io_errors - heat_penalty temp) 100

    good_parts :
        (end warned : Bool)
        → (if end
            then fail
            else if warned
            then HealthStatus.warning
            else if ltb 50 io_errors
            then fail
            else if ltb 10 io_errors
            then HealthStatus.warning
            else status_of (if end then 0 else score_from (if warned then 100 - 30 else 100)))
          ≡ good
        → (end ≡ false) × (warned ≡ false) × (io_errors ≤ 10) × (is_worn wear_level ≡ false)
    good_parts true warned h = cc
    good_parts false true h = cc
    good_parts false false h = elim (Bool-cases (ltb 10 io_errors)) [
      | inl e ↦ absurd (ground (arith, e, h))
      | inr e ↦
          let few : io_errors ≤ 10 = ground (arith, e) in
          let high : 80 ≤ score_from 100 =
            status_good (score_from 100) (ground (arith, few, e, h)) in
          (refl, refl, few, worn_costs wear_level (omega (arith, high)))
    ]
