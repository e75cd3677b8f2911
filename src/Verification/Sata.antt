-- ===== src/Verification/Sata.antt =====
-- `verify_sata_sanitize` of backend/verification.py: up to five attempts to read the status, and
-- the reading of its "State:" lines.
pub mod Verdict
use Prim.Native.Char.{code}
use drive_eraser.Prelude.{
  ℕ, zero, suc, ◌+◌, String, Bool, true, false, not, ◌&&◌, ◌||◌, Option, none, some, List, [], ◌∷◌,
  leb, ◌==◌, str_eq, lower, strip, contains, any, if◌then◌else◌,
}
use drive_eraser.Device.{CommandResult, Tools, validate_device_path}
use drive_eraser.Verification.Report.{details_of, Report, failure, verified}
use drive_eraser.Verification.Nvme.{extract_command_output}

-- the line boundaries of `str.splitlines` in ASCII
is_break : ℕ → Bool
is_break c = (leb 10 c && leb c 13) || (leb 28 c && leb c 30)

-- The rest of a line, and the lines behind it. `\r\n` is one boundary; as two it would add an empty
-- line, which no test below matches, so each boundary ends a line here.
push_char : String → List String → List String
push_char c [] = c ∷ []
push_char c (line ∷ lines) = Prim.Native.String.◌++◌ c line ∷ lines

unfoldable pub split_lines : String → List String
unfolding is_break push_char
split_lines String.[] = []
split_lines (String.◌∷◌ c s) =
    if is_break (code c) then "" ∷ split_lines s else push_char (String.◌∷◌ c "") (split_lines s)

-- `any(ind in line for ind in indicators)`
unfoldable pub mentions : List String → String → Bool
mentions indicators line = any (λ ind. contains ind line) indicators

abbrev pub success_words : List String
success_words = "idle" ∷ "completed" ∷ "succeeded" ∷ "sd0" ∷ "sd4" ∷ []

abbrev pub active_words : List String
active_words = "in process" ∷ "in progress" ∷ "sd2" ∷ []

abbrev pub failed_words : List String
failed_words = "failed" ∷ "unsuccessful" ∷ "sd3" ∷ []

-- A flag that the loop over the lines sets: some line has "state:" and one of the words.
unfoldable pub state_flag : List String → List String → Bool
state_flag words lines = any (λ line. contains "state:" line && mentions words line) lines

-- another attempt is made: the link was reset, or nothing was said
unfoldable pub is_transient : String → Bool
is_transient output =
    contains "bad/missing sense data" (lower output)
    || contains "input/output error" (lower output)
    || str_eq (strip (lower output)) ""

-- The loop: the answer of the first attempt that is not transient, or of the last one.
unfoldable pub read_status : Tools → List String → (left attempt : ℕ) → CommandResult
read_status tools command zero attempt = tools.run attempt command
read_status tools command (suc left) attempt =
    let r = tools.run attempt command in
    elim (is_transient (extract_command_output r)) [
      | true ↦ read_status tools command left (attempt + 1)
      | false ↦ r
    ]

unfoldable pub status_verdict : String → CommandResult → Report
status_verdict method r =
    let lowered = lower (extract_command_output r) in
    let lines = split_lines lowered in
    if str_eq (strip lowered) ""
    then (if r.ok
        then failure method "verification_error" "sata_sanitize_status_empty"
        else failure method "verification_error" "hdparm_sanitize_status_failed")
    else if state_flag failed_words lines
    then failure method "verification_failed" "sata_sanitize_failed_state"
    else if state_flag active_words lines
    then failure method "verification_failed" "sata_sanitize_still_in_progress"
    else if state_flag success_words lines
    then verified (record (details_of method) { mode = some "sata_sanitize_status" })
    else failure method "verification_failed" "sata_sanitize_status_unrecognized"

unfoldable pub with_hdparm : Tools → String → String → Option String → Report
with_hdparm tools device method none =
    failure method "verification_error" "hdparm_not_available_for_verification"
with_hdparm tools device method (some hdparm_cmd) =
    if str_eq hdparm_cmd ""
    then failure method "verification_error" "hdparm_not_available_for_verification"
    else status_verdict method
        (read_status tools (hdparm_cmd ∷ "--sanitize-status" ∷ device ∷ []) 4 0)

unfoldable pub verify_sata_sanitize : Tools → String → String → Report
verify_sata_sanitize tools device method =
    if validate_device_path (some device)
    then with_hdparm tools device method (tools.path_of "hdparm")
    else failure method "verification_error" "invalid_device_path"
