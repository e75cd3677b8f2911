-- ===== src/EraseJob/Blocked.antt =====
-- What the health gate keeps from a drive that it blocks.
use mathlib.Core.Path.{subst}
use drive_eraser.Prelude.{
  ℕ, String, ◌≡◌, refl, sym, ◌∙◌, Bool, true, false, ◌&&◌, Option, none, some, List, get_or,
  if◌then◌else◌,
}
use drive_eraser.ZeroCheck.Threads.{World}
use drive_eraser.EraseJob.State.{
  running, failed, Gate, Job, Run, beginning, blocking, failing, Station, look_up,
  finalize_failed_job,
}
use drive_eraser.EraseJob.Cancelling.{Cancellation, through, stuck, on_wipe_starting}
use drive_eraser.EraseJob.Stages.{
  begun, begin, init_job, override_allowed, pass_gate, gate_result, check_health_gate,
}
use drive_eraser.EraseJob.Finish.{continue, run_initialized, run_erase_job}
use drive_eraser.EraseJob.Rules.{
  Holds, continue-Holds, ends-Holds, OfJob, update-OfJob, spawned-update, waiting-update,
}
use drive_eraser.EraseJob.Waiting.{Course, went_through, waits, stuck-LockKept}

-- Nothing was spawned, and the job has failed or was deleted.
abbrev pub HasFailed : List (List String) → Run → Type 0
HasFailed before out = (out.spawned ≡ before) × OfJob (λ j. j.status ≡ failed) out.job

any_job : (o : Option Job) → OfJob (λ j. Unit {0}) o
any_job none = tt
any_job (some j) = tt

module _ (station : Station) (job : Job) (before : List (List String)) (z : World) where
  abbrev Refused : Run → Type 0
  Refused = Course station job before z (HasFailed before)

  finalize_failed_job-Refused :
      (message : String) (r : Run)
      → r.spawned ≡ before
      → r.waiting ≡ false
      → Refused (finalize_failed_job station message r)
  unfolding finalize_failed_job
  finalize_failed_job-Refused message r s going =
      let fail = λ (j : Job). record j { status = failed; finished = true; error = some message } in
      went_through (waiting-update (λ j. Unit) (λ j. Unit) station failing r fail ∙ going) (
        spawned-update (λ j. Unit) (λ j. Unit) station failing r fail ∙ s,
        update-OfJob (λ j. Unit) (λ j. j.status ≡ failed) station failing r fail (λ j _. refl)
            (any_job r.job),
      )

  pass_gate-Refused :
      (gate : Gate) (r : Run)
      → gate.blocked ≡ true
      → job.request.health_gate_override && override_allowed station.policy ≡ false
      → r.spawned ≡ before
      → r.waiting ≡ false
      → Holds Refused (λ (x : Unit {0}) r'. ⊥) (pass_gate station job.request gate r)
  unfolding pass_gate
  pass_gate-Refused gate r blocked forbidden s going =
      rw (blocked, forbidden)
        (ends-Holds _ (
          finalize_failed_job-Refused _ _
            (spawned-update (λ j. Unit) (λ j. Unit) station blocking r _ ∙ s)
            (waiting-update (λ j. Unit) (λ j. Unit) station blocking r _ ∙ going)))

  abbrev start : Bool → Run
  start true = record { job = none; spawned = before; zero_checks = z; waiting = false }
  start false = record { job = some job; spawned = before; zero_checks = z; waiting = false }

  found : (gone : Bool) → (if gone then start true else start false) ≡ start gone
  found true = refl
  found false = refl

  abbrev initialized : World → Run
  initialized w = record {
    job = some (record job { status = running });
    spawned = before;
    zero_checks = w;
    waiting = false;
  }

  abbrev IsBlocked : Type 0
  IsBlocked =
      (get_or job.health_gate_result
        (station.pre_wipe_health_gate job.request.device job.request.interface_type)).blocked
      ≡ true

  module _ (execution_rounds polling_rounds : ℕ) (blocked : IsBlocked)
      (forbidden : job.request.health_gate_override && override_allowed station.policy
        ≡ false) where
    run_initialized-Refused :
        (w : World)
        → Refused
            (run_initialized station execution_rounds polling_rounds job.request (initialized w))
    unfolding run_initialized check_health_gate gate_result
    run_initialized-Refused w =
        continue-Holds _ _ (pass_gate-Refused _ (initialized w) blocked forbidden refl refl)
          (λ x r bad. absurd bad)

    begun-Refused :
        (c : Cancellation)
        → on_wipe_starting station job.request.bay z ≡ c
        → Refused (
            continue
              (begun job.request (initialized z) c)
              (run_initialized station execution_rounds polling_rounds))
    unfolding begun continue
    begun-Refused (through w) e = run_initialized-Refused w
    begun-Refused (stuck w) e = waits refl refl refl (stuck-LockKept station job.request.bay z e)

    blocked_from :
        (gone : Bool)
        → Refused (
            continue
              (begin station (start gone).job (start gone))
              (run_initialized station execution_rounds polling_rounds))
    unfolding begin
    blocked_from true = unfold continue in went_through refl (refl, tt)
    blocked_from false = begun-Refused _ refl

-- A job that the health gate blocks, by the result that it holds or by a new one, spawns no erase
-- command when no override is asked for or none is allowed. It ends as failed, unless it is deleted
-- meanwhile; or else its thread waits for ever for the lock of the zero checks, and this only if the
-- lock is kept when the run begins or the other threads may come to keep it while the zero check of the
-- bay is cancelled.
pub run_erase_job-Refused :
    (station : Station) (job : Job) (before : List (List String)) (z : World)
    (execution_rounds polling_rounds : ℕ)
    → (get_or job.health_gate_result
        (station.pre_wipe_health_gate job.request.device job.request.interface_type)).blocked
      ≡ true
    → job.request.health_gate_override && override_allowed station.policy ≡ false
    → Course station job before z (HasFailed before) (
        run_erase_job station execution_rounds polling_rounds
          (record { job = some job; spawned = before; zero_checks = z; waiting = false }))
unfolding run_erase_job init_job look_up
run_erase_job-Refused station job before z er pr blocked forbidden =
    subst
      (λ (x : Run).
        Course station job before z (HasFailed before)
          (continue (begin station x.job x) (run_initialized station er pr)))
      (sym (found station job before z (station.deleted beginning)))
      (blocked_from station job before z er pr blocked forbidden (station.deleted beginning))
