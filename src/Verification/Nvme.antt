-- ===== src/Verification/Nvme.antt =====
-- `verify_nvme_sanitize` of backend/verification.py, with the parser of the sanitize log.
pub mod Field
pub mod Verdict
use drive_eraser.Prelude.{
  ℕ, ◌%◌, String, Bool, true, false, not, ◌&&◌, Option, none, some, List, [], ◌∷◌, ltb, ◌==◌,
  str_eq, lower, strip, contains, truthy, if◌then◌else◌,
}
use drive_eraser.Device.{CommandResult, Tools, validate_device_path}
use drive_eraser.Verification.Report.{Details, details_of, Report, failure, verified}
unfoldable pub use Field.{parse_numeric_field, namespace_controller}

-- `extract_command_output`
unfoldable pub extract_command_output : CommandResult → String
extract_command_output r = if str_eq (strip r.stdout) "" then strip r.stderr else strip r.stdout

abbrev log_details : String → Option ℕ → Option ℕ → Details
log_details method sprog sstat = record (details_of method) { sprog = sprog; sstat = sstat }

abbrev in_log : String → Option ℕ → Option ℕ → String → Report
in_log method sprog sstat error = record {
  ok = false;
  status = "verification_failed";
  error = some error;
  details = log_details method sprog sstat;
}

abbrev success : String → Option ℕ → Option ℕ → String → Report
success method sprog sstat note =
    verified (record (log_details method sprog sstat) {
      mode = some "nvme_sanitize_log";
      note = some note;
    })

-- `o == n` of a field that may be `None`
abbrev pub is : Option ℕ → ℕ → Bool
is none n = false
is (some m) n = m == n

-- `sstat & 0x7`
abbrev pub low_bits : Option ℕ → Option ℕ
low_bits none = none
low_bits (some n) = some (n % 8)

-- `0 < sprog < 65535`
abbrev running : Option ℕ → Bool
running none = false
running (some n) = ltb 0 n && ltb n 65535

abbrev unset : Option ℕ → Bool
unset none = true
unset (some n) = n == 0

-- The tests on the parsed log, in the order of the source.
unfoldable pub log_verdict : String → Bool → Option ℕ → Option ℕ → Report
log_verdict method says_failed sprog sstat =
    let report = in_log method sprog sstat in
    if says_failed
    then report "nvme_sanitize_failed_state"
    else if is sstat 0x000
    then report "nvme_sanitize_never_executed"
    else if is (low_bits sstat) 0x2
    then report "nvme_sanitize_still_in_progress"
    else if is (low_bits sstat) 0x3
    then report "nvme_sanitize_failed"
    else if is sstat 0x101
    then success method sprog sstat "completed_with_global_data_erased"
    else if is sstat 0x102
    then success method sprog sstat "completed_no_deallocate"
    else if is sprog 0
    then report "nvme_sanitize_still_in_progress"
    else if running sprog
    then report "nvme_sanitize_still_in_progress"
    else if is sprog 65535 && unset sstat
    then report "nvme_sanitize_state_inconsistent"
    else success method sprog sstat "defensive_success"

unfoldable pub read_log : String → CommandResult → Report
read_log method result =
    let output = extract_command_output result in
    if not result.ok
    then failure method "verification_error" "nvme_sanitize_log_failed"
    else if str_eq (strip output) ""
    then failure method "verification_error" "nvme_sanitize_log_empty"
    else log_verdict method (contains "failed" (lower output)) (parse_numeric_field "sprog" output)
        (parse_numeric_field "sstat" output)

unfoldable pub query_log : Tools → String → String → String → Report
query_log tools nvme_cmd device method =
    read_log method (tools.run 0 (nvme_cmd ∷ "sanitize-log" ∷ device ∷ []))

-- The log is asked of the controller; of a namespace path that is its prefix.
unfoldable pub on_controller : Tools → String → String → String → Option String → Report
on_controller tools nvme_cmd device method none = query_log tools nvme_cmd device method
on_controller tools nvme_cmd device method (some controller) =
    if validate_device_path (some controller)
    then query_log tools nvme_cmd controller method
    else failure method "verification_error" "invalid_extracted_device_path"

unfoldable pub with_nvme : Tools → String → String → Option String → Report
with_nvme tools device method none =
    failure method "verification_error" "nvme_not_available_for_verification"
with_nvme tools device method (some nvme_cmd) =
    if str_eq nvme_cmd ""
    then failure method "verification_error" "nvme_not_available_for_verification"
    else on_controller tools nvme_cmd device method (namespace_controller device)

unfoldable pub verify_nvme_sanitize : Tools → String → String → Report
verify_nvme_sanitize tools device method =
    if validate_device_path (some device)
    then with_nvme tools device method (tools.path_of "nvme")
    else failure method "verification_error" "invalid_device_path"
