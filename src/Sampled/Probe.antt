-- ===== src/Sampled/Probe.antt =====
-- `verify_crypto_probe` of backend/crypto_verification.py, and the answers of the sampled checks as
-- `verification_for_method` of backend/verification.py reads them.
pub mod Evidence
use drive_eraser.Prelude.{
  String, Bool, true, false, Option, none, some, List, [], ◌∷◌, lower, strip, or_else, member,
  if◌then◌else◌,
}
use drive_eraser.Verification.Dispatch.{Probe, Checks}
use drive_eraser.Sampled.Station.{Station}
use drive_eraser.Sampled.Zeros.{Sampling, refused, nonzero_at, all_zero, verify_sampled_zero_check}
use drive_eraser.Sampled.Hashes.{
  Digest, Before, Comparison, halted, partial_wipe, changed, was_zero, unchanged,
  verify_crypto_hash_comparison,
}

abbrev hash_level : Option String
hash_level = some "controller_attested_with_hash_comparison"

abbrev pub failed_probe : Option String → String → Probe
failed_probe status error = record {
  ok = false;
  status = status;
  error = some error;
  verification_level = none;
}

abbrev pub verified_probe : Option String → Probe
verified_probe level = record {
  ok = true;
  status = some "verified";
  error = none;
  verification_level = level;
}

unfoldable pub probe_of_sampling : Sampling → Probe
probe_of_sampling (refused error) = failed_probe none error
probe_of_sampling (nonzero_at offset total) =
    failed_probe (some "verification_failed") "secondary_zero_check_failed_nonzero_data_detected"
probe_of_sampling (all_zero total chunks) = verified_probe none

unfoldable pub probe_of_comparison : Comparison → Probe
probe_of_comparison (halted status error) = failed_probe (some status) error
probe_of_comparison (partial_wipe offset) =
    failed_probe (some "verification_failed") "crypto_comparison_partial_wipe"
probe_of_comparison changed = verified_probe hash_level
probe_of_comparison was_zero = verified_probe hash_level
probe_of_comparison unchanged =
    failed_probe (some "verification_failed") "crypto_comparison_unchanged_data"

-- `selected_mode in {"disabled", "controller_only"}`
unfoldable pub is_skipped : String → Bool
is_skipped mode = member mode ("disabled" ∷ "controller_only" ∷ [])

unfoldable pub selected_mode : Option String → String
selected_mode mode = lower (strip (or_else mode "conservative_probe"))

-- `before_state and before_state.get("ok")`
unfoldable pub is_captured : Option Before → Bool
is_captured none = false
is_captured (some b) = b.ok

unfoldable pub by_before : Digest → Station → String → Option Before → Probe
by_before digest s device none = probe_of_sampling (verify_sampled_zero_check s device)
by_before digest s device (some b) =
    if b.ok
    then probe_of_comparison (verify_crypto_hash_comparison digest s device b)
    else probe_of_sampling (verify_sampled_zero_check s device)

unfoldable pub verify_crypto_probe :
    Digest → Station → String → Option String → Option Before → Probe
verify_crypto_probe digest s device mode before =
    if is_skipped (selected_mode mode)
    then record {
      ok = true;
      status = some "skipped";
      error = none;
      verification_level = some "controller_attested_only";
    }
    else by_before digest s device before

-- The checks of `verification_for_method` with the two secondary ones of this code.
unfoldable pub with_samples : Digest → Station → Option Before → Checks → Checks
with_samples digest s before checks = record checks {
  crypto_probe = λ device mode. verify_crypto_probe digest s device (some mode) before;
  sampled_zero_check = λ device. probe_of_sampling (verify_sampled_zero_check s device);
}
