-- ===== src/HealthGate/Samples.antt =====
-- A sound drive at the gate, and a job on a failed one.
use drive_eraser.Prelude.{
  ◌≡◌, ◌%◌, ◌^◌, refl, true, false, none, some, [], arith, lower, upper, strip, lstrip, rstrip,
  contains, is_prefix, drop_chars, member, or_else,
}
use drive_eraser.Device.{validate_device_path}
use drive_eraser.Device.Path.{valid_codes, has_dots, matches, segments, in_segment, is_path_char}
use drive_eraser.Verification.Nvme.Field.{is_digit}
use drive_eraser.HealthGate.DevicePath.{
  lstrip_slashes, remove_dev, all_digits, letters_digits, is_sd_name, nvme_step, nvme_rest,
  is_nvme_name, full_path, device_name, validate_smart_path,
}
use drive_eraser.HealthGate.Score.{
  Smart, Thresholds, Figures, iface_of, status_of, has_bit, by_model, by_rate, is_drive_ssd,
  failed_override, calculate_drive_health_score, sas_stop, unworn, is_new_stock, by_score,
  get_drive_recommendation,
}
use drive_eraser.HealthGate.Gate.{
  GatePolicy, also, is_below, is_above, common_reason, nvme_reason, sas_reason, gate_iface,
  block_reason, blocked_by, gate_of, by_health_score, with_smart, pre_wipe_health_gate,
}
use drive_eraser.HealthGate.Cleared.{IsFit, pre_wipe_health_gate-IsFit}
use drive_eraser.HealthGate.Refused.{failing_drive-Refused}
use drive_eraser.HealthGate.LogHours.{distance, rolled_over, correct_self_test_log_hours}
use drive_eraser.HealthGate.LogHours.Rollover.{correct_self_test_log_hours-exact}
use drive_eraser.EraseJob.State.{Station}
use drive_eraser.EraseJob.Stages.{override_allowed}
use drive_eraser.EraseJob.Waiting.{Course}
use drive_eraser.EraseJob.Blocked.{HasFailed}
use drive_eraser.EraseJob.Finish.{run_erase_job}
use drive_eraser.EraseJob.Samples.{station, job}
use drive_eraser.ZeroCheck.Threads.{initial}

program : Unit {0}
unfolding lower upper strip lstrip rstrip contains is_prefix member or_else validate_device_path
    valid_codes has_dots matches segments in_segment is_path_char is_digit lstrip_slashes drop_chars
    remove_dev all_digits letters_digits is_sd_name nvme_step nvme_rest is_nvme_name full_path
    device_name validate_smart_path iface_of status_of has_bit by_model by_rate is_drive_ssd
    failed_override calculate_drive_health_score sas_stop unworn is_new_stock by_score
    get_drive_recommendation also is_below is_above common_reason nvme_reason sas_reason gate_iface
    block_reason gate_of by_health_score with_smart pre_wipe_health_gate override_allowed
program = tt

abbrev sound : Smart
sound = record {
  status = some "PASSED";
  model = some "ST4000";
  rotation_rate = some 7200;
  wear_level = none;
  power_on_hours = some 12000;
  reallocated_sectors = some 0;
  reallocated_normalized = none;
  pending_sectors = some 1;
  interface_errors = some 3;
  sas_grown_defect_list = none;
  sas_scan_status = none;
  sas_uncorrectable_read_errors = none;
  sas_uncorrectable_write_errors = none;
  sas_uncorrectable_verify_errors = none;
  sas_sticky_lba_detected = false;
  nvme_critical_warning = none;
  smartctl_exit_status = some 0;
}

abbrev thresholds : Thresholds
thresholds = record {
  health_score_destroy = 25;
  health_score_scratch = 50;
  health_score_good = 80;
  realloc_raw_new = 0;
  ssd_new_poh = 100;
  hdd_new_poh = 100;
  sas_grown_defect_fail = 10000;
}

abbrev figures : Figures
figures = record {
  points = λ iface s. 85;
  ssd_few_writes = λ s. false;
  hdd_few_writes = λ s. false;
}

abbrev policy : GatePolicy
policy = record {
  enabled = true;
  block_destroy = true;
  block_scratch = false;
  block_failed_smart = true;
  max_pending = 10;
  max_reallocated = 5;
  max_interface_errors = 100;
}

pre_wipe_health_gate-IsFit_example :
    IsFit figures thresholds policy "running" (some sound) "/dev/sda" (some "sata")
unfolding program
pre_wipe_health_gate-IsFit_example =
    pre_wipe_health_gate-IsFit figures thresholds policy "running" (some sound) "/dev/sda"
      (some "sata") refl refl

abbrev failed_drive : Smart
failed_drive = record sound { status = some "FAILED"; smartctl_exit_status = some 8 }

abbrev gated : Station
gated = record (station true) {
  pre_wipe_health_gate = λ device iface. blocked_by "smart_status_failed";
}

failing_drive-Refused_example : Course gated job [] (initial 2) (HasFailed []) (
    run_erase_job gated 57602 1802
      (record { job = some job; spawned = []; zero_checks = initial 2; waiting = false }))
unfolding program
failing_drive-Refused_example =
    failing_drive-Refused figures thresholds policy "running" failed_drive gated job [] (initial 2)
      57602 1802 refl refl refl refl (omega arith) refl refl

test_hours :
    correct_self_test_log_hours (some 7928) (some 140000) (some 70000)
    ≡ record { corrected_hours = some 139000; rollover_corrected = true; ambiguous = false }
unfolding correct_self_test_log_hours rolled_over distance
test_hours = refl

correct_self_test_log_hours-exact_example :
    (correct_self_test_log_hours
      (some (139000 % 2 ^ 16))
      (some 140000)
      (some 70000)).corrected_hours
    ≡ some 139000
unfolding correct_self_test_log_hours rolled_over distance
correct_self_test_log_hours-exact_example =
    correct_self_test_log_hours-exact 139000 140000 (some 70000) (omega arith) (omega arith)
      (omega arith) refl
