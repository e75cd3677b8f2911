-- ===== src/HealthGate/Gate.antt =====
-- `pre_wipe_health_gate` of backend/smart_health_gate.py. The SMART data and the device's state in sysfs are
-- what the drive shows; the score, its breakdown and `details` are left out of the result.
use drive_eraser.Prelude.{
  ℕ, String, Bool, true, false, not, ◌&&◌, ◌||◌, Option, none, some, [], ◌∷◌, ltb, leb, str_eq,
  lower, upper, strip, contains, member, get_or, truthy, if◌then◌else◌,
}
use drive_eraser.HealthGate.DevicePath.{validate_smart_path}
use drive_eraser.EraseJob.State.{Gate}
use drive_eraser.HealthGate.Score.{
  Smart, Thresholds, Figures, count_or_zero, has_bit, calculate_drive_health_score,
  get_drive_recommendation,
}

pub record GatePolicy : Type 0 where
  pub enabled : Bool
  pub block_destroy : Bool
  pub block_scratch : Bool
  pub block_failed_smart : Bool
  pub max_pending : ℕ
  pub max_reallocated : ℕ
  pub max_interface_errors : ℕ

-- `if block_reason is None and condition: block_reason = reason`
unfoldable pub also : Bool → String → Option String → Option String
also condition reason none = if condition then some reason else none
also condition reason (some earlier) = some earlier

-- a counter that is present and below, or above, a bound
unfoldable pub is_below : Option ℕ → ℕ → Bool
is_below none bound = false
is_below (some n) bound = ltb n bound

unfoldable pub is_above : Option ℕ → ℕ → Bool
is_above none bound = false
is_above (some n) bound = ltb bound n

-- The conditions 1 to 5
unfoldable pub common_reason :
    Thresholds → GatePolicy → Smart → (score : ℕ) → (recommendation : String) → Option String
common_reason t p s score recommendation =
    also (ltb p.max_interface_errors (count_or_zero s.interface_errors)) "interface_errors_exceeded"
      (also (ltb p.max_reallocated (count_or_zero s.reallocated_sectors))
        "reallocated_sectors_exceeded"
        (also (ltb p.max_pending (count_or_zero s.pending_sectors)) "pending_sectors_exceeded" (
          also (p.block_scratch && str_eq recommendation "SCRATCH") "recommendation_scratch" (
            also (p.block_destroy && str_eq recommendation "DESTROY") "recommendation_destroy" (
              also (p.block_destroy && leb score t.health_score_destroy)
                "health_score_below_destroy_threshold"
                (also (p.block_failed_smart && str_eq (upper (get_or s.status "")) "FAILED")
                  "smart_status_failed" none))))))

-- The conditions 6
unfoldable pub nvme_reason : Smart → Option String → Option String
nvme_reason s found =
    let warning = count_or_zero s.nvme_critical_warning in
    also (has_bit warning 4 || has_bit warning 8) "nvme_critical_warning"
      (also (is_below s.reallocated_normalized 10) "nvme_available_spare_low" found)

-- The conditions 7
unfoldable pub sas_reason : Thresholds → Smart → Option String → Option String
sas_reason t s found = also s.sas_sticky_lba_detected "sas_sticky_lba_detected" (
    also (leb 10 (count_or_zero s.sas_uncorrectable_read_errors))
      "sas_uncorrectable_read_errors_exceeded"
      (also (leb 1 (count_or_zero s.sas_uncorrectable_write_errors)) "sas_uncorrectable_write_error"
        (also (leb 1 (count_or_zero s.sas_uncorrectable_verify_errors))
          "sas_uncorrectable_verify_error"
          (also
            (truthy s.sas_scan_status && contains "halted" (lower (get_or s.sas_scan_status "")))
            "sas_scan_halted"
            (also (is_above s.sas_grown_defect_list t.sas_grown_defect_fail)
              "sas_grown_defect_list_exceeded" found)))))

unfoldable pub gate_iface : Option String → String
gate_iface interface_type = lower (strip (get_or interface_type ""))

unfoldable pub block_reason :
    Thresholds
    → GatePolicy
    → Option String
    → (device_state : String) → Smart
    → (score : ℕ) → (recommendation : String) → Option String
block_reason t p interface_type device_state s score recommendation =
    let common = common_reason t p s score recommendation in
    let nvme = if str_eq (gate_iface interface_type) "nvme" then nvme_reason s common else common in
    let sas = if str_eq (gate_iface interface_type) "sas" then sas_reason t s nvme else nvme in
    also (member device_state ("offline" ∷ "removed" ∷ [])) "device_offline_or_removed" sas

abbrev pub blocked_by : String → Gate
blocked_by reason = record { blocked = true; block_reason = some reason }

abbrev pub let_through : Gate
let_through = record { blocked = false; block_reason = none }

unfoldable pub gate_of : Option String → Gate
gate_of none = let_through
gate_of (some reason) = blocked_by reason

-- `None <= destroy_threshold` raises a TypeError, unless an earlier condition or the policy keeps the code
-- from it; without a score the recommendation is UNKNOWN.
unfoldable pub by_health_score :
    Thresholds
    → GatePolicy
    → Option String
    → (device_state : String) → Smart
    → Option ℕ
    → (recommendation : String) → Option Gate
by_health_score t p interface_type device_state s (some score) recommendation =
    some (gate_of (block_reason t p interface_type device_state s score recommendation))
by_health_score t p interface_type device_state s none recommendation =
    if p.block_destroy && not (p.block_failed_smart && str_eq (upper (get_or s.status "")) "FAILED")
    then none
    else some (gate_of (block_reason t p interface_type device_state s 0 recommendation))

unfoldable pub with_smart :
    Figures
    → Thresholds
    → GatePolicy
    → Option String
    → (device_state : String) → Option Smart
    → Option Gate
with_smart f t p interface_type device_state none = some (blocked_by "drive_not_accessible")
with_smart f t p interface_type device_state (some s) =
    if str_eq (get_or s.status "") "UNKNOWN"
    then some (blocked_by "drive_not_accessible")
    else (let score = calculate_drive_health_score f interface_type s in
        by_health_score t p interface_type device_state s score
          (get_drive_recommendation f t interface_type s score))

-- No gate means that the function raises.
unfoldable pub pre_wipe_health_gate :
    Figures
    → Thresholds
    → GatePolicy
    → (device_state : String) → Option Smart
    → String
    → Option String
    → Option Gate
pre_wipe_health_gate f t p device_state smart device interface_type =
    if not (validate_smart_path device)
    then some (blocked_by "invalid_device_path")
    else if not p.enabled
    then some let_through
    else with_smart f t p interface_type device_state smart
