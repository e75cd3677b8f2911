-- ===== src/HealthGate/Score.antt =====
-- `calculate_drive_health_score` and `get_drive_recommendation` of backend/smart_health.py, and
-- `is_drive_ssd` of backend/smart_utils.py. The figures in floating point are parameters: the points that
-- the penalties leave, rounded, and the comparisons of the drive's writes per capacity.
use drive_eraser.Prelude.{
  ℕ, ◌/◌, ◌%◌, min, String, Bool, true, false, ◌&&◌, ◌||◌, Option, none, some, [], ◌∷◌, ltb, leb,
  ◌==◌, any, str_eq, lower, upper, contains, or_else, get_or, is_some, if◌then◌else◌,
}

-- What the code reads of the SMART data of a drive: a counter that is absent, or is no number, is none.
pub record Smart : Type 0 where
  pub status : Option String
  pub model : Option String
  pub rotation_rate : Option ℕ
  pub wear_level : Option ℕ
  pub power_on_hours : Option ℕ
  pub reallocated_sectors : Option ℕ
  pub reallocated_normalized : Option ℕ
  pub pending_sectors : Option ℕ
  pub interface_errors : Option ℕ
  pub sas_grown_defect_list : Option ℕ
  pub sas_scan_status : Option String
  pub sas_uncorrectable_read_errors : Option ℕ
  pub sas_uncorrectable_write_errors : Option ℕ
  pub sas_uncorrectable_verify_errors : Option ℕ
  pub sas_sticky_lba_detected : Bool
  pub nvme_critical_warning : Option ℕ
  pub smartctl_exit_status : Option ℕ

pub record Thresholds : Type 0 where
  pub health_score_destroy : ℕ
  pub health_score_scratch : ℕ
  pub health_score_good : ℕ
  pub realloc_raw_new : ℕ
  pub ssd_new_poh : ℕ
  pub hdd_new_poh : ℕ
  pub sas_grown_defect_fail : ℕ

-- `int(round(score))` behind the penalties, and `fdw < ssd_new_fdw_threshold` or that of a hard disk.
pub record Figures : Type 0 where
  pub points : Option String → Smart → ℕ
  pub ssd_few_writes : Smart → Bool
  pub hdd_few_writes : Smart → Bool

-- `safe_int(smart.get(key), 0)`
abbrev pub count_or_zero : Option ℕ → ℕ
count_or_zero n = get_or n 0

-- `str(interface_type or "unknown").lower()`
unfoldable pub iface_of : Option String → String
iface_of interface_type = lower (or_else interface_type "unknown")

-- `str(smart.get("status") or "UNKNOWN").upper()`
unfoldable pub status_of : Smart → String
status_of s = upper (or_else s.status "UNKNOWN")

-- `n & mask != 0` for a mask of one bit
unfoldable pub has_bit : (n bit : ℕ) → Bool
has_bit n bit = n / bit % 2 == 1

unfoldable pub by_model : Smart → Bool
by_model s =
    let model = lower (get_or s.model "") in
    if contains "ssd" model
    then true
    else if any (λ m. contains m model)
        ("hdd" ∷ "barracuda" ∷ "ironwolf" ∷ "toshiba" ∷ "mg07" ∷ "mg08" ∷ "mg09" ∷ "mg10"
          ∷ "enterprise capacity" ∷ [])
    then false
    else is_some s.wear_level

unfoldable pub by_rate : Option ℕ → Smart → Bool
by_rate none s = by_model s
by_rate (some rate) s = rate == 0

unfoldable pub is_drive_ssd : Option String → Smart → Bool
is_drive_ssd interface_type s =
    if contains "nvme" (iface_of interface_type) then true else by_rate s.rotation_rate s

unfoldable pub failed_override : Option String → Smart → Bool
failed_override interface_type s =
    let exit = count_or_zero s.smartctl_exit_status in
    let warning = count_or_zero s.nvme_critical_warning in
    str_eq (status_of s) "FAILED"
    || has_bit exit 8
    || has_bit exit 16
    || (str_eq (iface_of interface_type) "nvme" && (has_bit warning 4 || has_bit warning 8))

-- No score where the data could not be collected.
unfoldable pub calculate_drive_health_score : Figures → Option String → Smart → Option ℕ
calculate_drive_health_score f interface_type s =
    if str_eq (status_of s) "UNKNOWN"
    then none
    else if failed_override interface_type s
    then some (min (f.points interface_type s) 5)
    else some (f.points interface_type s)

-- The hard stops of a SAS drive
unfoldable pub sas_stop : Thresholds → Smart → Bool
sas_stop t s =
    leb 1 (count_or_zero s.sas_uncorrectable_verify_errors)
    || leb 1 (count_or_zero s.sas_uncorrectable_write_errors)
    || leb 10 (count_or_zero s.sas_uncorrectable_read_errors)
    || leb t.sas_grown_defect_fail (count_or_zero s.sas_grown_defect_list)

-- `remaining_life == 100`
unfoldable pub unworn : Option ℕ → Bool
unworn none = true
unworn (some wear) = wear == 0

unfoldable pub is_new_stock : Figures → Thresholds → Option String → Smart → Bool
is_new_stock f t interface_type s =
    let hours = count_or_zero s.power_on_hours in
    let pristine = count_or_zero s.reallocated_sectors == t.realloc_raw_new in
    if is_drive_ssd interface_type s
    then ltb hours t.ssd_new_poh && f.ssd_few_writes s && unworn s.wear_level && pristine
    else ltb hours t.hdd_new_poh && f.hdd_few_writes s && pristine

-- `health_score is not None` and the thresholds of the score
unfoldable pub by_score : Figures → Thresholds → Option String → Smart → Option ℕ → String
by_score f t interface_type s none =
    if str_eq (status_of s) "FAILED"
    then "DESTROY"
    else if is_new_stock f t interface_type s
    then "NEW_STOCK"
    else "USED_HEAVY"
by_score f t interface_type s (some score) =
    if str_eq (status_of s) "FAILED" || leb score t.health_score_destroy
    then "DESTROY"
    else if leb score t.health_score_scratch
    then "SCRATCH"
    else if is_new_stock f t interface_type s
    then "NEW_STOCK"
    else if leb t.health_score_good score
    then "USED_GOOD"
    else "USED_HEAVY"

-- The key `status` of the recommendation
unfoldable pub get_drive_recommendation :
    Figures → Thresholds → Option String → Smart → Option ℕ → String
get_drive_recommendation f t interface_type s score =
    if str_eq (status_of s) "UNKNOWN"
    then "UNKNOWN"
    else if str_eq (iface_of interface_type) "sas" && sas_stop t s
    then "DESTROY"
    else by_score f t interface_type s score
