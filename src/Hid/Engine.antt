-- ===== src/Hid/Engine.antt =====
-- hid/src/lib.rs: the open devices, and the reports that are written to them. Opening and writing a
-- device are outcomes; a device that is open is only told from one that is not.
pub mod Writing
use rustykvm.Prelude.{
  ℕ, zero, suc, ◌+◌, ◌-◌, ◌*◌, ◌/◌, ◌%◌, ◌^◌, ◌≤◌, ◌<◌, min, String, ◌≡◌, refl, sym, ap, ◌∙◌, ◌≢◌,
  ◌↔◌, ◌⊎◌, inl, inr, Bool, true, false, not, ◌&&◌, ◌||◌, Option, none, some, List, [], ◌∷◌, ◌++◌,
  map, arith, eq_iff, str_eq, ltb, leb, ◌==◌, if◌then◌else◌, ltb→lt, lt→ltb, ltb_of_le, leb→le,
  ==_iff, tests, Bool-cases, Option-cases, is_some_and, length, get_elem?, get_elem?-of_lt, get_or,
  take, drop, replicate, any, all, retain, All, sum, sum-append, list_eq, list_eq→eq, list_eq_refl,
  length-append, length-take, length-drop, take-append-drop, length-retain-le,
}
use rustykvm.Prelude.Result.{Result, ok, err}

pub data HidError : Type 0 where
  io : String → HidError
  timeout : HidError
  invalid_length : ℕ → ℕ → HidError

-- Whether each handle is there.
pub record HidEngine : Type 0 where
  pub keyboard : Bool
  pub mouse_rel : Bool
  pub mouse_abs : Bool

-- What a write to an open device does.
pub data Write : Type 0 where
  wrote : Write
  failed : String → Write
  timed_out : Write

-- The outcomes of one report: the first write, the reopening, and the second write.
pub record HidIo : Type 0 where
  pub first : Write
  pub reopened : Bool
  pub second : Write

-- `open_all`: a handle that is there is kept.
unfoldable pub open_all : Bool → Bool → Bool → HidEngine → HidEngine
open_all keyboard mouse_rel mouse_abs e = record {
  keyboard = e.keyboard || keyboard;
  mouse_rel = e.mouse_rel || mouse_rel;
  mouse_abs = e.mouse_abs || mouse_abs;
}

unfoldable pub new : Bool → Bool → Bool → HidEngine
unfolding open_all
new keyboard mouse_rel mouse_abs =
    open_all keyboard mouse_rel mouse_abs
      (record { keyboard = false; mouse_rel = false; mouse_abs = false })

-- The result, the handle after it, and the reports that reached the device.
pub record Sent : Type 0 where
  pub result : Result {0, 0} HidError Unit
  pub is_open : Bool
  pub reports : List (List ℕ)

unfoldable pub write_with_timeout : Bool → Write → List ℕ → Sent
write_with_timeout false w data_ = record {
  result = err (io "Device not open");
  is_open = false;
  reports = [];
}
write_with_timeout true wrote data_ = record {
  result = ok tt;
  is_open = true;
  reports = data_ ∷ [];
}
write_with_timeout true (failed e) data_ = record {
  result = err (io e);
  is_open = false;
  reports = [];
}
write_with_timeout true timed_out data_ = record {
  result = err timeout;
  is_open = true;
  reports = [];
}

-- Only an error of the device leads to the second attempt.
abbrev pub again : HidIo → List ℕ → Bool → Result {0, 0} HidError Unit → List (List ℕ) → Sent
again o report is_open (ok u) reports = record {
  result = ok u;
  is_open = is_open;
  reports = reports;
}
again o report is_open (err (io e)) reports = write_with_timeout o.reopened o.second report
again o report is_open (err timeout) reports = record {
  result = err timeout;
  is_open = is_open;
  reports = reports;
}
again o report is_open (err (invalid_length expected got)) reports = record {
  result = err (invalid_length expected got);
  is_open = is_open;
  reports = reports;
}

-- A report to one device, with one attempt to open it again.
unfoldable pub send : HidIo → Bool → List ℕ → Sent
unfolding write_with_timeout
send o is_open report =
    let s = write_with_timeout is_open o.first report in again o report s.is_open s.result s.reports

-- The result, the engine after it, and the reports that reached the device.
pub record Answer : Type 0 where
  pub result : Result {0, 0} HidError Unit
  pub engine : HidEngine
  pub reports : List (List ℕ)

abbrev pub refused : HidEngine → ℕ → ℕ → Answer
refused e expected got = record {
  result = err (invalid_length expected got);
  engine = e;
  reports = [];
}

unfoldable pub send_keyboard : HidIo → HidEngine → List ℕ → Answer
unfolding send
send_keyboard o e report =
    if not (length report == 8)
    then refused e 8 (length report)
    else (let s = send o e.keyboard report in
        record {
          result = s.result;
          engine = record {
            keyboard = s.is_open;
            mouse_rel = e.mouse_rel;
            mouse_abs = e.mouse_abs;
          };
          reports = s.reports;
        })

unfoldable pub send_mouse : HidIo → HidEngine → List ℕ → Answer
unfolding send
send_mouse o e report =
    if length report == 4
    then (let s = send o e.mouse_rel report in
        record {
          result = s.result;
          engine = record { keyboard = e.keyboard; mouse_rel = s.is_open; mouse_abs = e.mouse_abs };
          reports = s.reports;
        })
    else if length report == 6
    then (let s = send o e.mouse_abs report in
        record {
          result = s.result;
          engine = record { keyboard = e.keyboard; mouse_rel = e.mouse_rel; mouse_abs = s.is_open };
          reports = s.reports;
        })
    else refused e 4 (length report)
