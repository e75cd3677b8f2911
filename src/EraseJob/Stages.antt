-- ===== src/EraseJob/Stages.antt =====
-- The stages of an erase job before its verification.
use drive_eraser.Prelude.{
  ℕ, String, Bool, true, false, not, ◌&&◌, ◌||◌, Option, none, some, List, [], ◌∷◌, str_eq, lower,
  strip, contains, get_or, or_else, if◌then◌else◌, ◌==◌,
}
use drive_eraser.Config.{Policy}
use drive_eraser.Verification.Dispatch.{is_crypto_or_block, is_secure_erase}
use drive_eraser.EraseCommand.{
  Prepared, ready, refused, with_command, security_erase, prepare_erase_command,
}
use drive_eraser.EraseJob.Cancelling.{Cancellation, through, stuck, on_wipe_starting}
use drive_eraser.EraseJob.State.{
  running, Gate, JobRequest, Exit, exited, by_signal, Execution, Job, Run, beginning, overriding,
  blocking, storing, spawning, stopping, polling, Attempt, returned, raised, SetPassword, Station,
  look_up, update, finalize_failed_job, interrupt,
}
use drive_eraser.EraseJob.Loops.{
  Ended, complete, timed_out, exhausted, unfinished, wait_process, poll_loop, poll_seconds,
  status_report,
}

-- What a stage hands to the next one, or that the job ends with it.
pub record Passed {ℓ} (A : Type ℓ) : Type ℓ where
  pub run : Run
  pub value : Option A

abbrev pub ends {ℓ} : {A : Type ℓ} → Run → Passed A
ends r = record { run = r; value = none }

abbrev pub goes_on {ℓ} : {A : Type ℓ} → A → Run → Passed A
goes_on a r = record { run = r; value = some a }

unfoldable pub begun : JobRequest → Run → Cancellation → Passed JobRequest
begun request r (through w) = goes_on request (record r { zero_checks = w })
begun request r (stuck w) = ends (record r { zero_checks = w; waiting = true })

-- `_init_job`: the request of the job is what the later stages go by.
unfoldable pub begin : Station → Option Job → Run → Passed JobRequest
begin station none r = ends r
begin station (some job) r =
    begun job.request (record r { job = some (record job { status = running }) })
      (on_wipe_starting station job.request.bay r.zero_checks)

unfoldable pub init_job : Station → Run → Passed JobRequest
unfolding begin
init_job station r = let r' = look_up station beginning r in begin station r'.job r'

unfoldable pub concat : List String → String
concat [] = ""
concat (s ∷ ss) = Prim.Native.String.◌++◌ s (concat ss)

-- `str(block_reason)`, in a message
unfoldable pub shown : Option String → String
shown none = "None"
shown (some s) = s

-- `not strict_mode and not strict_audit_mode`
unfoldable pub override_allowed : Policy → Bool
override_allowed policy =
    not (get_or policy.prewipe_health_gate_strict_mode false)
    && not (get_or policy.strict_audit_mode false)

unfoldable pub blocked_message : Bool → Option String → String
blocked_message allowed reason =
    Prim.Native.String.◌++◌
      (if allowed
        then "pre_wipe_health_check_failed_override_available: "
        else "pre_wipe_health_check_failed: ")
      (shown reason)

-- `_check_health_gate` with the result of the gate
unfoldable pub pass_gate : Station → JobRequest → Gate → Run → Passed (Unit {0})
pass_gate station request gate r =
    let allowed = override_allowed station.policy in
    if not gate.blocked
    then goes_on tt r
    else if request.health_gate_override && allowed
    then goes_on tt (
        update station overriding
          (λ job. record job { health_gate_result = some gate; override_accepted = true }) r)
    else ends (
        finalize_failed_job station (blocked_message allowed gate.block_reason) (
          update station blocking
            (λ job. record job { health_gate_result = some gate; override_allowed = some allowed })
            r))

-- the result that the job has already, or a new one
unfoldable pub gate_result : Station → JobRequest → Option Job → Gate
gate_result station request none =
    station.pre_wipe_health_gate request.device request.interface_type
gate_result station request (some job) =
    get_or job.health_gate_result
      (station.pre_wipe_health_gate request.device request.interface_type)

unfoldable pub check_health_gate : Station → JobRequest → Run → Passed (Unit {0})
check_health_gate station request r =
    pass_gate station request (gate_result station request r.job) r

unfoldable pub store_before : Station → Bool → Run → Run
store_before station false r = r
store_before station true r = update station storing (λ job. record job { has_before = true }) r

-- `_capture_pre_wipe_state`
unfoldable pub capture_pre_wipe_state : Station → Run → Run
capture_pre_wipe_state station r = store_before station station.before_ok r

-- `DEFAULT_ERASE_TIMEOUTS.get(method, 7200)`
unfoldable pub default_timeout : String → ℕ
default_timeout method = if str_eq method "overwrite" then 172800 else 7200

unfoldable pub timeout_or : ℕ → Option ℕ → ℕ
timeout_or default none = default
timeout_or default (some n) = if n == 0 then default else n

-- `_get_erase_timeout`
unfoldable pub get_erase_timeout : Station → String → ℕ
get_erase_timeout station method =
    timeout_or (default_timeout method)
      (station.configured_timeout (Prim.Native.String.◌++◌ method "_seconds"))

-- The outcome of setting the SATA password: the message of the failure, if it failed.
unfoldable pub password_failure : Attempt SetPassword → Option String
password_failure (raised e) = some (Prim.Native.String.◌++◌ "security_set_password_exception: " e)
password_failure (returned answer) =
    if answer.ok
    then none
    else some (
        Prim.Native.String.◌++◌ "security_set_password_failed: " (
          if contains "frozen" (lower answer.stdout) || contains "frozen" (lower answer.stderr)
          then "SATA drive is FROZEN by BIOS. Suspend-to-RAM or hot-plug SATA power to unfreeze."
          else or_else (some (strip answer.stderr)) "set_password_failed"))

unfoldable pub after_password : Option String → Prepared → Prepared
after_password none command = command
after_password (some message) command = refused message

-- The command of `_prepare_erase_command`
unfoldable pub choose_command : Station → JobRequest → Prepared
choose_command station request =
    if is_secure_erase request.method && str_eq (get_or request.interface_type "") "sata"
    then with_command (station.tools.path_of "hdparm") "hdparm_not_available" (λ path.
      after_password (password_failure station.set_password)
        (security_erase station.password request.method request.device path))
    else prepare_erase_command station.tools station.password request.device request.interface_type
        (some request.method)

unfoldable pub log_opened : Station → List String → Attempt (Unit {0}) → Run → Passed (List String)
log_opened station command (returned _) r = goes_on command r
log_opened station command (raised e) r =
    ends (finalize_failed_job station (Prim.Native.String.◌++◌ "log_file_creation_failed: " e) r)

unfoldable pub prepared : Station → Prepared → Run → Passed (List String)
prepared station (ready command) r = log_opened station command station.open_log r
prepared station (refused error) r =
    ends (finalize_failed_job station (or_else (some error) "prepare_command_failed") r)

-- `_prepare_erase_command`
unfoldable pub prepare : Station → JobRequest → Run → Passed (List String)
prepare station request r = prepared station (choose_command station request) r

unfoldable pub is_zero_exit : Exit → Bool
is_zero_exit (exited n) = n == 0
is_zero_exit (by_signal n) = false

unfoldable pub is_exit_one : Exit → Bool
is_exit_one (exited n) = n == 1
is_exit_one (by_signal n) = false

-- An overwrite ends with status 1 when the drive is full.
unfoldable pub execution_of : Station → String → List String → Execution
execution_of station method command = record {
  ok =
      is_zero_exit station.exit_code
      || (str_eq method "overwrite"
          && is_exit_one station.exit_code
          && contains "no space left on device" (lower station.log_text));
  command = command;
  stdout = station.log_text;
  exit_code = station.exit_code;
}

unfoldable pub after_wait : Station → String → List String → Ended → Run → Passed Execution
after_wait station method command (complete n) r = goes_on (execution_of station method command) r
after_wait station method command (Ended.interrupted n) r =
    ends (interrupt station stopping "Job interrupted by signal during erase execution" r)
after_wait station method command (timed_out n) r = ends (
    finalize_failed_job station
      (concat (
        "erase_timeout: exceeded "
        ∷ station.show_number (get_erase_timeout station method)
        ∷ "s (method="
        ∷ method
        ∷ ")"
        ∷ []))
      r)
after_wait station method command _ r = ends r

unfoldable pub spawned_as :
    Station → ℕ → String → List String → Attempt (Unit {0}) → Run → Passed Execution
spawned_as station rounds method command (raised e) r =
    ends (finalize_failed_job station (Prim.Native.String.◌++◌ "process_spawn_failed:" e) r)
spawned_as station rounds method command (returned _) r =
    after_wait station method command
      (wait_process station.execution_clock station.process_alive (get_erase_timeout station method)
        rounds 0)
      (look_up station spawning (record r { spawned = command ∷ r.spawned }))

-- `_execute_erase_subprocess`
unfoldable pub execute : Station → ℕ → String → List String → Run → Passed Execution
execute station rounds method command r = spawned_as station rounds method command station.spawn r

unfoldable pub after_polling : Station → String → Ended → Run → Passed (Unit {0})
after_polling station method (complete n) r = goes_on tt r
after_polling station method (Ended.interrupted n) r =
    ends (interrupt station polling "Job interrupted by signal during firmware polling" r)
after_polling station method (timed_out n) r = ends (
    finalize_failed_job station
      (concat (
        "firmware_polling_timeout: exceeded "
        ∷ station.show_number (poll_seconds method)
        ∷ "s"
        ∷ []))
      r)
after_polling station method (exhausted n) r =
    ends
      (finalize_failed_job station "firmware_polling_failed: max consecutive errors (15) reached" r)
after_polling station method unfinished r = ends r

-- `_poll_firmware_completion`
unfoldable pub poll_firmware_completion : Station → ℕ → JobRequest → Run → Passed (Unit {0})
poll_firmware_completion station rounds request r =
    if is_crypto_or_block request.method || is_secure_erase request.method
    then after_polling station request.method
        (poll_loop station.polling_clock
          (λ n.
            status_report (station.checks_at n) request.device (get_or request.interface_type "")
              request.method)
          (poll_seconds request.method) rounds 0 0)
        r
    else goes_on tt r
