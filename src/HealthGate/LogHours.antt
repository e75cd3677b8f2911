-- ===== src/HealthGate/LogHours.antt =====
-- `correct_self_test_log_hours` of backend/smart_constants.py: the 16-bit hours of a self-test log.
pub mod Rollover
use drive_eraser.Prelude.{
  ℕ, ◌+◌, ◌-◌, ◌*◌, ◌/◌, ◌%◌, Bool, true, false, ◌&&◌, ◌||◌, Option, none, some, ltb, get_or,
  if◌then◌else◌,
}

abbrev pub log_max_hours : ℕ
log_max_hours = 65535

abbrev pub log_rollover_boundary : ℕ
log_rollover_boundary = 65536

abbrev pub ambiguous_threshold_hours : ℕ
ambiguous_threshold_hours = 1000

-- `abs(a - b)`
unfoldable pub distance : ℕ → ℕ → ℕ
distance a b = if ltb a b then b - a else a - b

pub record LogHours : Type 0 where
  pub corrected_hours : Option ℕ
  pub rollover_corrected : Bool
  pub ambiguous : Bool

abbrev pub as_logged : Option ℕ → LogHours
as_logged log_hours = record {
  corrected_hours = log_hours;
  rollover_corrected = false;
  ambiguous = false;
}

unfoldable pub rolled_over : ℕ → ℕ → LogHours
rolled_over log_hours current_poh =
    let corrected = log_hours + current_poh / log_rollover_boundary * log_rollover_boundary in
    record {
      corrected_hours = some corrected;
      rollover_corrected = true;
      ambiguous =
          ltb log_max_hours current_poh
          && (ltb (current_poh % log_max_hours) ambiguous_threshold_hours
              || ltb ambiguous_threshold_hours (distance current_poh corrected));
    }

-- Absent and zero hours are alike where the source tests a number for its truth.
unfoldable pub correct_self_test_log_hours : Option ℕ → Option ℕ → Option ℕ → LogHours
correct_self_test_log_hours none current_poh historical_poh = as_logged none
correct_self_test_log_hours (some log_hours) current_poh historical_poh =
    let poh = get_or current_poh 0 in
    if ltb poh log_max_hours
    then as_logged (some log_hours)
    else if ltb log_max_hours (get_or historical_poh 0)
    then rolled_over log_hours poh
    else as_logged (some log_hours)
