-- ===== src/Verification/Dispatch.antt =====
-- `verification_for_method` of backend/verification.py: the primary check of the method and the
-- interface, and the secondary check of the bytes behind it. The checks are arguments: their
-- results are what the functions of this file and of backend/crypto_verification.py return.
pub mod Attested
use drive_eraser.Prelude.{
  ℕ, String, Bool, true, false, not, ◌&&◌, ◌||◌, Option, none, some, List, [], ◌∷◌, str_eq, lower,
  strip, member, or_else, get_or, truthy, if◌then◌else◌,
}
use Prim.Native.String.{◌++◌}
use drive_eraser.Device.{validate_device_path}
use drive_eraser.Verification.Report.{Details, details_of, Report, failure, verified}

-- What a secondary check returns: `verify_crypto_probe` or `verify_sampled_zero_check`.
pub record Probe : Type 0 where
  pub ok : Bool
  pub status : Option String
  pub error : Option String
  pub verification_level : Option String

pub record Checks : Type 0 where
  pub overwrite : String → Report
  pub nvme_sanitize : String → String → Report
  pub sata_sanitize : String → String → Report
  pub sata_secure_erase : String → String → Report
  pub sas_block : String → String → Report
  pub crypto_probe : String → String → Probe
  pub sampled_zero_check : String → Probe
  pub write_baseline : String → Option String → Option ℕ × Option String

-- `policy.get("secondary_verification_mode")` and `policy.get("crypto_verification_mode")`
pub record Modes : Type 0 where
  pub secondary : Option String
  pub crypto : Option String

unfoldable pub secondary_mode : Modes → String
secondary_mode modes =
    lower (strip (or_else modes.secondary (or_else modes.crypto "conservative_probe")))

unfoldable pub is_crypto_or_block : String → Bool
is_crypto_or_block method = str_eq method "crypto" || str_eq method "block"

unfoldable pub is_secure_erase : String → Bool
is_secure_erase method = str_eq method "secure_erase" || str_eq method "enhanced_secure_erase"

-- The choice of the primary check; the texts are normalised already.
unfoldable pub primary : Checks → String → (iface method : String) → (execution_ok : Bool) → Report
primary checks device iface method execution_ok =
    if str_eq method "overwrite"
    then (if execution_ok then checks.overwrite device else failure method "skipped" "erase_failed")
    else if is_crypto_or_block method && str_eq iface "nvme"
    then checks.nvme_sanitize device method
    else if is_crypto_or_block method && str_eq iface "sata"
    then checks.sata_sanitize device method
    else if is_secure_erase method && str_eq iface "sata"
    then checks.sata_secure_erase device method
    else if str_eq method "block" && str_eq iface "sas"
    then checks.sas_block device method
    else failure method "unsupported_method" ("verification_not_defined:" ++ method ++ ":" ++ iface)

-- A failed secondary check takes the place of the primary report.
unfoldable pub secondary_failed : String → String → Report
secondary_failed method error = failure method "verification_failed" error

unfoldable pub probe_error : Option String → String
probe_error error =
    if truthy error
    then "secondary_verification_failed: " ++ get_or error ""
    else "secondary_verification_failed"

unfoldable pub with_baseline : Checks → String → Option String → Report → Report
with_baseline checks device interface_type report =
    let (baseline, source) = checks.write_baseline device interface_type in
    record report {
      details = record report.details {
        smart_baseline_for_marker = baseline;
        write_counter_source = source;
      };
    }

attest : Report → String → String → Report
attest report status level = record report {
  details = record report.details {
    secondary_status = some status;
    verification_level = some level;
  };
}

by_probe : String → Report → Probe → (Report → Report) → Report
unfolding attest secondary_failed probe_error
by_probe method report probe finish =
    if probe.ok
    then finish (
        attest report
          (if str_eq (get_or probe.status "") "skipped"
            then "SKIPPED"
            else "PASSED_HASH_COMPARISON")
          (get_or probe.verification_level "controller_attested_with_hash_comparison"))
    else secondary_failed method (probe_error probe.error)

by_sample : String → Report → Probe → (Report → Report) → Report
unfolding attest secondary_failed
by_sample method report probe finish =
    if probe.ok
    then finish (attest report "PASSED_SAMPLED_ZERO_CHECK" "sampled_zero_check")
    else secondary_failed method (or_else probe.error "secondary_verification_failed")

-- The branch `if primary_result.get("ok")`. The flag says that a before-state was captured.
unfoldable pub secondary : Checks → String → Option String → String → Modes → Bool → Report → Report
unfolding by_probe by_sample attest
secondary checks device interface_type method modes has_before report =
    let mode = secondary_mode modes in
    let finish = λ (r : Report). with_baseline checks device interface_type r in
    if has_before
    then by_probe method report (checks.crypto_probe device mode) finish
    else if not (member mode ("disabled" ∷ "controller_only" ∷ []))
    then by_sample method report (checks.sampled_zero_check device) finish
    else finish (attest report "SKIPPED" "primary_verification_only")

unfoldable pub verification_for_method :
    Checks
    → String
    → Option String
    → Option String
    → Modes
    → (execution_ok has_before : Bool) → Report
verification_for_method checks device interface_type method modes execution_ok has_before =
    let selected = lower (strip (or_else method "")) in
    let iface = lower (strip (or_else interface_type "")) in
    if validate_device_path (some device)
    then (let report = primary checks device iface selected execution_ok in
        if report.ok
        then secondary checks device interface_type selected modes has_before report
        else report)
    else failure selected "verification_error" "invalid_device_path"
