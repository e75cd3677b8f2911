-- ===== src/Verification/Sas.antt =====
-- `verify_sas_block` of backend/verification.py.
pub mod Verdict
use drive_eraser.Prelude.{
  String, not, ◌&&◌, Option, none, some, List, [], ◌∷◌, str_eq, lower, strip, if◌then◌else◌,
}
use drive_eraser.Device.{CommandResult, Tools, validate_device_path}
use drive_eraser.Verification.Report.{details_of, Report, failure, verified}
use drive_eraser.Verification.Nvme.{extract_command_output}
use drive_eraser.Verification.Sata.{mentions}

abbrev pub in_progress_markers : List String
in_progress_markers =
    "in progress" ∷ "background operation in progress" ∷ "sanitize in progress"
    ∷ "progress indication" ∷ []

abbrev pub failed_markers : List String
failed_markers = "failed" ∷ "failure" ∷ "medium error" ∷ "aborted" ∷ []

abbrev pub complete_markers : List String
complete_markers =
    "completed" ∷ "success" ∷ "no sanitize operation in progress" ∷ "idle" ∷ "not in progress" ∷ []

unfoldable pub block_verdict : String → CommandResult → Report
block_verdict method r =
    let output = extract_command_output r in
    let lowered = lower output in
    let has_complete = mentions complete_markers lowered in
    if str_eq (strip output) ""
    then (if r.ok
        then failure method "verification_error" "sas_sanitize_status_empty"
        else failure method "verification_error" "sas_sanitize_status_failed")
    else if mentions failed_markers lowered
    then failure method "verification_failed" "sas_sanitize_failed_state"
    else if not has_complete && mentions in_progress_markers lowered
    then failure method "verification_failed" "sas_sanitize_still_in_progress"
    else if has_complete
    then verified (record (details_of method) { mode = some "sas_sanitize_status" })
    else failure method "verification_error" "sas_sanitize_status_unrecognized"

unfoldable pub with_sg_sanitize : Tools → String → String → Option String → Report
with_sg_sanitize tools device method none =
    failure method "verification_error" "sg_sanitize_not_available_for_verification"
with_sg_sanitize tools device method (some command) =
    if str_eq command ""
    then failure method "verification_error" "sg_sanitize_not_available_for_verification"
    else block_verdict method (tools.run 0 (command ∷ "--status" ∷ device ∷ []))

unfoldable pub verify_sas_block : Tools → String → String → Report
verify_sas_block tools device method =
    if validate_device_path (some device)
    then with_sg_sanitize tools device method (tools.path_of "sg_sanitize")
    else failure method "verification_error" "invalid_device_path"
