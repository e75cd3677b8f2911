-- ===== src/EraseJob/Samples.antt =====
-- A station and jobs on it, and what the theorems on erase jobs say of them.
use drive_eraser.Prelude.{
  ℕ, ◌*◌, ◌≡◌, ◌≢◌, ◌↔◌, refl, Bool, true, false, Option, none, some, [], ◌∷◌, ◌++◌, String, arith,
  ltb, if◌then◌else◌, lower, strip, lstrip, rstrip, or_else, member,
}
use drive_eraser.Device.{Tools}
use drive_eraser.Verification.Report.{Report, verified, failure, details_of}
use drive_eraser.Verification.Dispatch.{Checks, Probe}
use drive_eraser.Device.{validate_device_path}
use drive_eraser.Device.Path.{valid_codes, has_dots, matches, segments, in_segment, is_path_char}
use drive_eraser.ZeroCheck.Manager.{Entry, running_has, queue_has}
use drive_eraser.ZeroCheck.Threads.{World, initial, new_manager, start_check, here}
use drive_eraser.EraseJob.State
use drive_eraser.EraseCommand.{ready, prepare_erase_command, by_method, with_command}
use drive_eraser.EraseCommand.Target.{Targets, prepare_erase_command-Targets}
use drive_eraser.EraseJob.State.{Run, queued, exited, Job, returned, Clock, Station}
use drive_eraser.EraseJob.Loops.{unfinished, seconds, poll_loop}
use drive_eraser.EraseJob.Loops.Settle.{Paced, poll_loop_settles, Tells, poll_loop-Tells}
use drive_eraser.EraseJob.Stages.{
  pass_gate, override_allowed, get_erase_timeout, default_timeout, timeout_or,
}
use drive_eraser.EraseJob.Finish.{run_erase_job}
use drive_eraser.EraseJob.Settled.{Settled}
use drive_eraser.EraseJob.Settled.Finish.{start, run_erase_job_settles}
use drive_eraser.EraseJob.Waiting.{Course, run_erase_job_hangs}
use drive_eraser.EraseJob.Spawns.{Spares, run_erase_job-Spares}
use drive_eraser.EraseJob.Request.{check_health_gate_sync}
use drive_eraser.EraseJob.Request.Cleared.{check_health_gate_sync_iff}
use drive_eraser.EraseJob.Blocked.{HasFailed, run_erase_job-Refused}

abbrev clock : Clock
clock = record { interrupted = λ n. false; elapsed = λ n. 4000000 * n }

every_three : Paced 3 clock
unfolding seconds
every_three n = omega arith

every_four : Paced 4 clock
unfolding seconds
every_four n = omega arith

abbrev reports : ℕ → Option Report
reports n =
    if ltb n 5
    then some (failure "block" "verification_failed" "sas_sanitize_still_in_progress")
    else some (verified (details_of "block"))

poll_loop_settles_example : poll_loop clock reports 7200 1802 0 0 ≢ unfinished
poll_loop_settles_example = poll_loop_settles clock reports 7200 1801 0 0 every_four (omega arith)

poll_loop-Tells_example : Tells clock reports 7200 (poll_loop clock reports 7200 1802 0 0)
poll_loop-Tells_example = poll_loop-Tells clock reports 7200 1802

abbrev tools : Tools
tools = record {
  path_of = λ name. some "/usr/bin/tool";
  run = λ attempt command. record {
    ok = true;
    stdout = "";
    stderr = "";
    return_code = some 0;
    output_bytes = [];
  };
}

command_ready :
    prepare_erase_command tools "wipestation" "/dev/sdb" (some "SATA") (some "overwrite")
    ≡ ready (
        "/usr/bin/tool" ∷ "if=/dev/zero" ∷ "of=/dev/sdb" ∷ "bs=16M" ∷ "status=none"
        ∷ "conv=fdatasync" ∷ [])
unfolding prepare_erase_command by_method with_command lower strip lstrip rstrip or_else member
command_ready = refl

prepare_erase_command-Targets_example : Targets "/dev/sdb" (
    "/usr/bin/tool" ∷ "if=/dev/zero" ∷ "of=/dev/sdb" ∷ "bs=16M" ∷ "status=none" ∷ "conv=fdatasync"
    ∷ [])
prepare_erase_command-Targets_example =
    prepare_erase_command-Targets tools "wipestation" "/dev/sdb" (some "SATA") (some "overwrite")
      command_ready

abbrev passed : String → Report
passed method = verified (details_of method)

abbrev probe : Probe
probe = record { ok = true; status = some "verified"; error = none; verification_level = none }

abbrev checks : Checks
checks = record {
  overwrite = λ device. passed "overwrite";
  nvme_sanitize = λ device method. passed method;
  sata_sanitize = λ device method. passed method;
  sata_secure_erase = λ device method. passed method;
  sas_block = λ device method. passed method;
  crypto_probe = λ device mode. probe;
  sampled_zero_check = λ device. probe;
  write_baseline = λ device iface. (some 7, none);
}

abbrev pub station : (blocked : Bool) → Station
station blocked = record {
  deleted = λ section. false;
  before_signal = λ w. w;
  while_joined = λ w. w;
  policy = record {
    method_priority = [];
    strict_audit_mode = some true;
    allow_method_override = none;
    prewipe_health_gate_strict_mode = none;
  };
  post_erase_marker = true;
  configured_timeout = λ key. none;
  password = "wipestation";
  tools = tools;
  pre_wipe_health_gate = λ device iface. record { blocked = blocked; block_reason = some "worn" };
  before_ok = true;
  set_password = returned (record { ok = true; stdout = ""; stderr = "" });
  open_log = returned tt;
  spawn = returned tt;
  process_alive = λ n. ltb n 3;
  exit_code = exited 0;
  log_text = "";
  execution_clock = clock;
  checks_at = λ n. checks;
  polling_clock = clock;
  checks = checks;
  modes = record { secondary = none; crypto = none };
  write_marker = λ job baseline. record { ok = true; status = "verified"; error = none };
  build_certificate = λ job. returned "certificate";
  show_number = λ n. "172800";
  show_exit = λ code. "0";
  show_details = λ details. "{}";
}

abbrev pub job : Job
job = record {
  status = queued;
  finished = false;
  error = none;
  request = record {
    bay = "bay1";
    device = "/dev/sdb";
    interface_type = some "sata";
    method = "overwrite";
    health_gate_override = true;
    disable_marker = false;
    write_counter_source = none;
  };
  health_gate_result = none;
  override_accepted = false;
  override_allowed = none;
  has_before = false;
  result = none;
  warnings = [];
  verification = none;
  marker = none;
  certificate = none;
}

run_erase_job_settles_example :
    Course
      (station false)
      job
      []
      (initial 2)
      (Settled (station false) job [])
      (run_erase_job (station false) 57602 1802 (start (station false) job [] (initial 2)))
run_erase_job_settles_example =
    run_erase_job_settles (station false) job [] (initial 2) 57601 1801 every_three every_four
      (unfold get_erase_timeout default_timeout timeout_or in omega arith) (omega arith)

run_erase_job-Refused_example : Course (station true) job [] (initial 2) (HasFailed []) (
    run_erase_job
      (station true)
      57602
      1802
      (record { job = some job; spawned = []; zero_checks = initial 2; waiting = false }))
run_erase_job-Refused_example =
    run_erase_job-Refused (station true) job [] (initial 2) 57602 1802 refl
      (unfold override_allowed in refl)

run_erase_job-Spares_example :
    Spares
      (station false)
      job.request
      []
      (run_erase_job
        (station false)
        57602
        1802
        (record { job = some job; spawned = []; zero_checks = initial 2; waiting = false })).spawned
run_erase_job-Spares_example = run_erase_job-Spares (station false) job [] (initial 2) 57602 1802

abbrev run : Run
run = record { job = some job; spawned = []; zero_checks = initial 2; waiting = false }

check_health_gate_sync_iff_example :
    ((check_health_gate_sync
        (station true).pre_wipe_health_gate
        "/dev/sdb"
        (some "sata")
        (station true).policy
        true).blocked
      ≡ true)
    ↔ ((pass_gate
          (station true)
          job.request
          (record { blocked = true; block_reason = some "worn" })
          run).value
        ≡ none)
check_health_gate_sync_iff_example = check_health_gate_sync_iff (station true) job.request run

-- The bay of the job is queued, and `start_check` is called for it once more.
abbrev entry : Entry
entry = record { bay = "bay1"; device = "/dev/sdb"; serial = none }

abbrev queued_world : World
queued_world = record (initial 2) { manager = record (new_manager 2) { queue = entry ∷ [] } }

abbrev deadlocked : World
deadlocked = record {
  manager = (start_check entry queued_world.manager).0;
  threads = queued_world.threads ++ (start_check entry queued_world.manager).1;
}

run_erase_job_hangs_example :
    run_erase_job
      (station false)
      57602
      1802
      (record { job = some job; spawned = []; zero_checks = deadlocked; waiting = false })
    ≡ record {
      job = some (record job { status = State.running });
      spawned = [];
      zero_checks = deadlocked;
      waiting = true;
    }
run_erase_job_hangs_example =
    run_erase_job_hangs (station false) job [] entry queued_world 57602 1802
      (unfold validate_device_path valid_codes has_dots matches segments in_segment is_path_char in
        refl)
      (unfold new_manager running_has queue_has in refl) here refl (λ e. cc e)
