-- ===== src/EraseJob/Request/Cleared.antt =====
-- What a run of a job erases whose request was accepted, and that the two health gates agree.
use drive_eraser.Prelude.{
  ℕ, String, ◌≡◌, ◌↔◌, refl, true, false, ◌&&◌, Option, none, some, List, [], ◌∷◌, Bool-cases, inl,
  inr, arith, here, there, get_or, str_eq,
}
use drive_eraser.Config.{Policy, Drive}
use drive_eraser.JobValidation.{Host, Request, Validated, accepted, validate_single_bay}
use drive_eraser.JobValidation.Sound.{IsCleared, validate_single_bay-IsCleared}
use drive_eraser.Verification.Dispatch.{is_secure_erase}
use drive_eraser.EraseCommand.{Prepared, ready, security_erase}
use drive_eraser.EraseCommand.Target.{
  Targets, Safe, with_command-Safe, Safe-Targets, prepare_erase_command-Targets,
}
use drive_eraser.ZeroCheck.Threads.{World}
use drive_eraser.EraseJob.State.{JobRequest, Run, Station}
use drive_eraser.EraseJob.Stages.{pass_gate, password_failure, after_password, choose_command}
use drive_eraser.EraseJob.Finish.{run_erase_job}
use drive_eraser.EraseJob.Spawns.{Spares, nothing, one, run_erase_job-Spares}
use drive_eraser.EraseJob.Request.{create_erase_job, check_health_gate_sync}

after_password-Safe :
    (device : String) (o : Option String) (p : Prepared)
    → Safe device p
    → Safe device (after_password o p)
unfolding after_password
after_password-Safe device none p s = s
after_password-Safe device (some m) p s = tt

security_erase-Safe :
    (password method device path : String)
    → Safe device (security_erase password method device path)
unfolding security_erase
security_erase-Safe password method device path = record {
  target = device;
  named = there (there (there (there (there here))));
  addressed = inl refl;
}

choose_command-Targets :
    (station : Station) (q : JobRequest) {c : List String}
    → choose_command station q ≡ ready c
    → Targets q.device c
unfolding choose_command
choose_command-Targets station q h =
    elim (Bool-cases (is_secure_erase q.method && str_eq (get_or q.interface_type "") "sata")) [
      | inl sata ↦
          Safe-Targets q.device _
            (with_command-Safe q.device (station.tools.path_of "hdparm") "hdparm_not_available" _
              (λ path.
                after_password-Safe q.device (password_failure station.set_password) _
                  (security_erase-Safe station.password q.method q.device path)))
            (rw sata at h)
      | inr other ↦
          prepare_erase_command-Targets station.tools station.password q.device q.interface_type
            (some q.method) (rw other at h)
    ]

-- No erase command was spawned, or one, of the device.
pub data Erases (device : String) (spawned : List (List String)) : Type 0 where
  erases_nothing : spawned ≡ [] → Erases device spawned
  erases_once :
      (command : List String)
      → Targets device command
      → spawned ≡ command ∷ []
      → Erases device spawned

Spares-Erases :
    (station : Station) (q : JobRequest) (after : List (List String))
    → Spares station q [] after
    → Erases q.device after
Spares-Erases station q after (nothing e) = erases_nothing e
Spares-Erases station q after (one c chosen e) =
    erases_once c (choose_command-Targets station q chosen) e

-- From an accepted request on: the job that is made of it spawns no erase command, or one, and that
-- names the device of the request's drive, or the controller of it, as `Targets` says; and the drive
-- is cleared: listed, in the requested bay, not locked and not the disk of the host, as `IsCleared`
-- says.
pub accepted_request-Erases :
    (host : Host) (r : Request) (drives : List Drive) (p : Policy) {v : Validated}
    (station : Station) (z : World) (execution_rounds polling_rounds : ℕ)
    → validate_single_bay host r drives p ≡ accepted v
    → IsCleared host r drives p v
      × Erases v.device
          (run_erase_job station execution_rounds polling_rounds (record {
            job = some (create_erase_job v);
            spawned = [];
            zero_checks = z;
            waiting = false;
          })).spawned
unfolding create_erase_job
accepted_request-Erases host r drives p {v} station z er pr h = (
  validate_single_bay-IsCleared host r drives p h,
  Spares-Erases station (create_erase_job v).request _
      (run_erase_job-Spares station (create_erase_job v) [] z er pr),
)

-- The health check before a job is started and the one in the job agree: the first blocks a request
-- exactly when the job, with the same result of the gate, policy and override, goes no further.
pub check_health_gate_sync_iff :
    (station : Station) (q : JobRequest) (r : Run)
    → ((check_health_gate_sync station.pre_wipe_health_gate q.device q.interface_type station.policy
          q.health_gate_override).blocked
        ≡ true)
      ↔ ((pass_gate station q (station.pre_wipe_health_gate q.device q.interface_type) r).value
          ≡ none)
unfolding check_health_gate_sync pass_gate
check_health_gate_sync_iff station q r = (λ h. ground arith, λ h. ground arith)
