-- ===== src/EraseJob/Settled/Finish.antt =====
-- The beginning of an erase job, and its whole run.
use mathlib.Core.Path.{subst}
use drive_eraser.Prelude.{
  ℕ, suc, ◌*◌, ◌<◌, String, ◌≡◌, refl, ap, sym, Bool, true, false, none, some, List, get_or,
  if◌then◌else◌,
}
use drive_eraser.ZeroCheck.Threads.{World}
use drive_eraser.EraseJob.State.{running, JobRequest, Job, Run, beginning, Station, look_up}
use drive_eraser.EraseJob.Loops.Settle.{Paced}
use drive_eraser.EraseJob.Cancelling.{Cancellation, through, stuck, on_wipe_starting}
use drive_eraser.EraseJob.Stages.{
  begun, begin, init_job, pass_gate, gate_result, check_health_gate, capture_pre_wipe_state,
  prepare, get_erase_timeout, execute,
}
use drive_eraser.EraseJob.Finish.{run_initialized, run_erase_job}
use drive_eraser.EraseJob.Rules.{Holds, continue-Holds, ends-Holds, goes_on-Holds, OfJob}
use drive_eraser.EraseJob.Settled.{Settled, IsSame, Open}
use drive_eraser.EraseJob.Waiting.{Course, went_through, waits, stuck-LockKept}
use drive_eraser.EraseJob.Settled.Stages.{
  spawned_as-Holds, poll-Holds, prepared-Holds, LetThrough, pass_gate-Holds, store_before-Open,
}
use drive_eraser.EraseJob.Settled.Verdict.{kept_before, verify-Holds, finalize-Settled}

module _ (station : Station) (job : Job) (before : List (List String)) where
  abbrev pub start : World → Run
  start z = record { job = some job; spawned = before; zero_checks = z; waiting = false }

  -- what is known of the run when the health gate is asked
  record Begun (request : JobRequest) (r : Run) : Type 0 where
    same : request ≡ job.request
    at_work : r.job ≡ some (record job { status = running })
    so_far : r.spawned ≡ before
    going : r.waiting ≡ false

  begun-Holds :
      (z : World) (c : Cancellation)
      → on_wipe_starting station job.request.bay z ≡ c
      → Holds
          (Course station job before z (Settled station job before))
          Begun
          (begun job.request (record (start z) { job = some (record job { status = running }) }) c)
  unfolding begun
  begun-Holds z (through w) e =
      goes_on-Holds _ _ (record { same = refl; at_work = refl; so_far = refl; going = refl })
  begun-Holds z (stuck w) e =
      ends-Holds _ (waits refl refl refl (stuck-LockKept station job.request.bay z e))

  begin-Holds :
      (z : World) (gone : Bool)
      → Holds (Course station job before z (Settled station job before)) Begun (
          begin station
            (if gone then record (start z) { job = none } else start z).job
            (if gone then record (start z) { job = none } else start z))
  unfolding begin
  begin-Holds z true = ends-Holds _ (went_through refl (record { going = refl; ended = tt }))
  begin-Holds z false = begun-Holds z _ refl

  init-Holds :
      (z : World)
      → Holds
          (Course station job before z (Settled station job before))
          Begun
          (init_job station (start z))
  unfolding init_job look_up
  init-Holds z = begin-Holds z (station.deleted beginning)

  gate-Holds :
      (r : Run)
      → Begun job.request r
      → Holds
          (Settled station job before)
          (λ (x : Unit {0}) r'.
            LetThrough station job (
              get_or job.health_gate_result
                (station.pre_wipe_health_gate job.request.device job.request.interface_type))
            × Open station job before job.has_before before r')
          (check_health_gate station job.request r)
  unfolding check_health_gate gate_result
  gate-Holds r b =
      let o : Open station job before job.has_before before r = record {
        same =
            subst (OfJob (IsSame station job before job.has_before)) (sym b.at_work) (refl, refl);
        so_far = b.so_far;
        going = b.going;
      } in
      subst
        (λ g.
          Holds (Settled station job before)
            (λ (x : Unit {0}) r'.
              LetThrough station job
                (gate_result station job.request (some (record job { status = running })))
              × Open station job before job.has_before before r')
            (pass_gate station job.request g r))
        (sym (ap (gate_result station job.request) b.at_work))
        (pass_gate-Holds station job before job.has_before _ r o)

  module _ (execution_rounds polling_rounds : ℕ) (pace : Paced 3 station.execution_clock)
      (pace' : Paced 4 station.polling_clock)
      (enough : get_erase_timeout station job.request.method < 3 * execution_rounds)
      (enough' : 7200 < 4 * polling_rounds) where
    run_initialized-Settled :
        (r : Run)
        → Begun job.request r
        → Settled station job before
            (run_initialized station (suc execution_rounds) (suc polling_rounds) job.request r)
    unfolding run_initialized prepare execute capture_pre_wipe_state
    run_initialized-Settled r b = continue-Holds _ _ (gate-Holds r b) (λ _ r2 (let_through, o2).
        continue-Holds _ _
          (prepared-Holds station job before (kept_before station job before) _ _ refl
            (store_before-Open station job before station.before_ok r2 o2))
          (λ command r3 (chosen, o3).
            continue-Holds _ _
              (spawned_as-Holds station job before (kept_before station job before) execution_rounds
                command station.spawn r3 pace enough o3)
              (λ execution r4 (made_by, o4).
                continue-Holds _ _
                  (poll-Holds station job before (kept_before station job before) polling_rounds
                    command r4 pace' enough' o4)
                  (λ _ r5 o5.
                    continue-Holds _ _
                      (verify-Holds station job before execution r5 (record {
                        command = command;
                        chosen = chosen;
                        let_through = let_through;
                        made_by = made_by;
                        open_run = o5;
                      }))
                      (λ v r6 d. finalize-Settled station job before execution v r6 d)))))

-- A run of an erase job ends, with the job completed, failed or interrupted, or deleted meanwhile,
-- when the clocks are not set back, the loops have rounds enough for their time limits and no
-- exception leaves a stage, as the types of the station have it; or else its thread waits for ever
-- for the lock of the zero checks, and this only if the lock is kept when the run begins or the
-- other threads may come to keep it while the zero check of the bay is cancelled: the job then
-- stays running, and nothing is spawned. If it is completed, the health gate did not block it, or
-- an override was asked for and is allowed; the command of its request was spawned, once, and no
-- other erase command; and the verification of its device by its method is positive, with the
-- success of that command as the exit status and the log tell it, and with a state from before if
-- one was captured now or was there already.
pub run_erase_job_settles :
    (station : Station) (job : Job) (before : List (List String)) (z : World)
    (execution_rounds polling_rounds : ℕ)
    → Paced 3 station.execution_clock
    → Paced 4 station.polling_clock
    → get_erase_timeout station job.request.method < 3 * execution_rounds
    → 7200 < 4 * polling_rounds
    → Course station job before z (Settled station job before) (
        run_erase_job station
          (suc execution_rounds)
          (suc polling_rounds)
          (start station job before z))
unfolding run_erase_job
run_erase_job_settles station job before z er pr pace pace' enough enough' =
    continue-Holds _ _ (init-Holds station job before z) (λ request r b.
      let settled =
        run_initialized-Settled station job before er pr pace pace' enough enough' r
          (record { same = refl; at_work = b.at_work; so_far = b.so_far; going = b.going }) in
      subst
        (λ q.
          Course station job before z (Settled station job before)
            (run_initialized station (suc er) (suc pr) q r))
        (sym b.same) (went_through settled.going settled))
