-- ===== src/Hid/Engine/Writing.antt =====
-- What a report's result says of the device.
use rustykvm.Prelude.{
  ℕ, ◌≡◌, refl, inl, inr, Bool, true, false, List, [], ◌∷◌, ◌==◌, Bool-cases, length,
}
use rustykvm.Prelude.Result.{Result, ok, err}
use rustykvm.Hid.Engine.{
  HidError, HidEngine, Write, wrote, failed, timed_out, HidIo, write_with_timeout, again, send,
  send_keyboard, send_mouse,
}

-- Success means that the report arrived, once; an error that it did not.
abbrev pub Arrived : List ℕ → Result {0, 0} HidError Unit → List (List ℕ) → Type 0
Arrived report (ok u) reports = reports ≡ report ∷ []
Arrived report (err e) reports = reports ≡ []

write-Arrived :
    (is_open : Bool) (w : Write) (report : List ℕ)
    → Arrived report
        (write_with_timeout is_open w report).result
        (write_with_timeout is_open w report).reports
unfolding write_with_timeout
write-Arrived false w report = refl
write-Arrived true wrote report = refl
write-Arrived true (failed e) report = refl
write-Arrived true timed_out report = refl

pub send-Arrived :
    (o : HidIo) (is_open : Bool) (report : List ℕ)
    → Arrived report (send o is_open report).result (send o is_open report).reports
unfolding send write_with_timeout
send-Arrived o false report = write-Arrived o.reopened o.second report
send-Arrived o true report = opened o.first
  where
    opened :
        (w : Write)
        → let s = write_with_timeout true w report in
          Arrived report
            (again o report s.is_open s.result s.reports).result
            (again o report s.is_open s.result s.reports).reports
    opened wrote = refl
    opened (failed e) = write-Arrived o.reopened o.second report
    opened timed_out = refl

-- What a report to the mouse and one to the keyboard leave, whatever the devices do: a report that is answered
-- with success reached its device exactly once, and one that is answered with an error did not.
pub reports-Arrived :
    (o : HidIo) (e : HidEngine) (report : List ℕ)
    → Arrived report (send_keyboard o e report).result (send_keyboard o e report).reports
      × Arrived report (send_mouse o e report).result (send_mouse o e report).reports
unfolding send_keyboard send_mouse
reports-Arrived o e report = (keyboard, mouse)
  where
    keyboard : Arrived report (send_keyboard o e report).result (send_keyboard o e report).reports
    keyboard = elim (Bool-cases (length report == 8)) [
      | inl h ↦ rw h (send-Arrived o e.keyboard report)
      | inr h ↦ rw h refl
    ]

    mouse : Arrived report (send_mouse o e report).result (send_mouse o e report).reports
    mouse = elim (Bool-cases (length report == 4)) [
      | inl h ↦ rw h (send-Arrived o e.mouse_rel report)
      | inr h ↦ elim (Bool-cases (length report == 6)) [
        | inl k ↦ rw (h, k) (send-Arrived o e.mouse_abs report)
        | inr k ↦ rw (h, k) refl
      ]
    ]
