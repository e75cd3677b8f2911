-- ===== src/EraseJob/State.antt =====
-- The state of an erase job, and what the stages of backend/job_management.py ask of the station.
use drive_eraser.Prelude.{ℕ, String, Bool, true, Option, none, some, List, if◌then◌else◌}
use drive_eraser.Config.{Policy}
use drive_eraser.Device.{Tools}
use drive_eraser.Verification.Report.{Report, Details}
use drive_eraser.Verification.Dispatch.{Checks, Modes}
use drive_eraser.ZeroCheck.Threads.{World}

pub data JobStatus : Type 0 where
  queued running completed failed interrupted : JobStatus

-- the result of `pre_wipe_health_gate`
pub record Gate : Type 0 where
  pub blocked : Bool
  pub block_reason : Option String

pub record JobRequest : Type 0 where
  pub bay : String
  pub device : String
  pub interface_type : Option String
  pub method : String
  pub health_gate_override : Bool
  pub disable_marker : Bool
  pub write_counter_source : Option String

-- what `write_marker_and_verify` returns, and `{"ok": True, "status": "disabled_…"}`
pub record Marker : Type 0 where
  pub ok : Bool
  pub status : String
  pub error : Option String

-- The exit status of a process that has ended.
pub data Exit : Type 0 where
  exited by_signal : ℕ → Exit

pub record Execution : Type 0 where
  pub ok : Bool
  pub command : List String
  pub stdout : String
  pub exit_code : Exit

-- A job without its progress figures, time stamps and SMART snapshots. `finished` tells that
-- `finished_at` is set, and `has_before` that the before-state was stored.
pub record Job : Type 0 where
  pub status : JobStatus
  pub finished : Bool
  pub error : Option String
  pub request : JobRequest
  pub health_gate_result : Option Gate
  pub override_accepted : Bool
  pub override_allowed : Option Bool
  pub has_before : Bool
  pub result : Option Execution
  pub warnings : List String
  pub verification : Option Report
  pub marker : Option Marker
  pub certificate : Option String

-- What a run works on: the job in `ERASE_JOBS`, the erase commands that were spawned, the latest
-- first, and the background zero checks. `waiting` tells that the thread of the job waits for the lock
-- of the zero checks, which is never given back, so that none of its later stages is made.
pub record Run : Type 0 where
  pub job : Option Job
  pub spawned : List (List String)
  pub zero_checks : World
  pub waiting : Bool

-- The sections of the code that look the job up again.
pub data Section : Type 0 where
  beginning overriding blocking storing spawning stopping failing polling reading finishing :
      Section

-- A call that may raise an exception with a message.
pub data Attempt {ℓ} (A : Type ℓ) : Type ℓ where
  returned : A → Attempt A
  raised : (message : String) → Attempt A

-- Setting the SATA password: the exit status is zero, and the two outputs.
pub record SetPassword : Type 0 where
  pub ok : Bool
  pub stdout : String
  pub stderr : String

-- What a loop sees in its rounds: whether a signal has come, and the microseconds since the start.
pub record Clock : Type 0 where
  pub interrupted : ℕ → Bool
  pub elapsed : ℕ → ℕ

-- The calls that are no `Attempt` return: an exception that a stage does not catch ends the thread of the
-- job where it is, and is not modelled.
pub record Station : Type 0 where
  -- the job was deleted before the section, by another thread
  pub deleted : Section → Bool
  -- what other threads do to the zero checks while those of the bay are cancelled: before the event of
  -- its worker is set, and while the worker is joined, for five seconds at most
  pub before_signal : World → World
  pub while_joined : World → World
  pub policy : Policy
  pub post_erase_marker : Bool
  -- `int(timeouts[key])` of the policy's "erase_timeouts", 0 for what is not positive
  pub configured_timeout : String → Option ℕ
  pub password : String
  pub tools : Tools
  pub pre_wipe_health_gate : String → Option String → Gate
  pub before_ok : Bool
  pub set_password : Attempt SetPassword
  -- opening the log of the job, and spawning the process
  pub open_log : Attempt (Unit {0})
  pub spawn : Attempt (Unit {0})
  pub process_alive : ℕ → Bool
  pub exit_code : Exit
  pub log_text : String
  pub execution_clock : Clock
  -- the checks that the polling makes, by its rounds, and those that are made behind it
  pub checks_at : ℕ → Checks
  pub polling_clock : Clock
  pub checks : Checks
  pub modes : Modes
  pub write_marker : Job → Option ℕ → Marker
  pub build_certificate : Job → Attempt String
  -- `str` of a number, of an exit status and of a report's details
  pub show_number : ℕ → String
  pub show_exit : Exit → String
  pub show_details : Details → String

unfoldable pub look_up : Station → Section → Run → Run
look_up station section r = if station.deleted section then record r { job = none } else r

unfoldable pub change : (Job → Job) → Option Job → Option Job
change f none = none
change f (some job) = some (f job)

unfoldable pub update : Station → Section → (Job → Job) → Run → Run
unfolding look_up change
update station section f r =
    let r' = look_up station section r in record r' { job = change f r'.job }

-- `finalize_failed_job`
unfoldable pub finalize_failed_job : Station → String → Run → Run
unfolding update
finalize_failed_job station message r =
    update station failing
      (λ job. record job { status = failed; finished = true; error = some message }) r

-- A job that is stopped by a signal.
unfoldable pub interrupt : Station → Section → String → Run → Run
unfolding update
interrupt station section message r =
    update station section
      (λ job. record job { status = interrupted; finished = true; error = some message }) r
