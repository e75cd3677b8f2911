-- ===== src/EraseJob/Settled/Verdict.antt =====
-- The verification of an erase job and its end, from a run on that has erased.
use mathlib.Core.Path.{subst}
use drive_eraser.Prelude.{
  String, ◌≡◌, refl, ◌∙◌, ap, sym, ◌⊎◌, inl, inr, Bool, true, ◌||◌, Option, none, some, List, ◌∷◌,
  arith, get_or,
}
use drive_eraser.Verification.Report.{Report}
use drive_eraser.Verification.Dispatch.{verification_for_method}
use drive_eraser.EraseCommand.{ready}
use drive_eraser.EraseJob.State.{
  completed, failed, Execution, Job, Run, reading, finishing, Station,
}
use drive_eraser.EraseJob.Stages.{choose_command, execution_of}
use drive_eraser.EraseJob.Finish.{
  verify_job, verify_sanitization, certify, certify_failure, settle_verified, settle_failed, settle,
  finalize_job,
}
use drive_eraser.EraseJob.Rules.{
  Holds, ends-Holds, goes_on-Holds, OfJob, update-OfJob, spawned-update, waiting-update,
}
use drive_eraser.EraseJob.Settled.{was_completed, was_failed, Settled, IsSame, Open, look_up-Open}
use drive_eraser.EraseJob.Settled.Stages.{LetThrough}

module _ (station : Station) (job : Job) (before : List (List String)) where
  abbrev pub kept_before : Bool
  kept_before = station.before_ok || job.has_before

  -- what is known of the run when the verification is made
  pub record Spent (execution : Execution) (r : Run) : Type 0 where
    pub command : List String
    pub chosen : choose_command station job.request ≡ ready command
    pub let_through : LetThrough station job (
        get_or job.health_gate_result
          (station.pre_wipe_health_gate job.request.device job.request.interface_type))
    pub made_by : execution ≡ execution_of station job.request.method command
    pub open_run : Open station job before kept_before (command ∷ before) r

  pub record Judged (execution : Execution) (v : Report) (r : Run) : Type 0 where
    pub spent : Spent execution r
    pub made :
        v
        ≡ verification_for_method station.checks job.request.device job.request.interface_type
            (some job.request.method)
            station.modes
            execution.ok
            kept_before

  verify_job-Holds :
      (execution : Execution) (found : Option Job) (r : Run)
      → r.job ≡ found
      → Spent execution r
      → Holds
          (Settled station job before)
          (λ v r'. Judged execution v r')
          (verify_job station execution found r)
  unfolding verify_job
  verify_job-Holds execution none r e s =
      ends-Holds r (record { going = s.open_run.going; ended = rw e tt })
  verify_job-Holds execution (some j) r e s =
      let (same, before_kept) = same_job in
      goes_on-Holds _ r (record { spent = s; made = rw (same, before_kept) refl })
    where
      same_job : IsSame station job before kept_before j
      same_job = subst (OfJob (IsSame station job before kept_before)) e s.open_run.same

  pub verify-Holds :
      (execution : Execution) (r : Run)
      → Spent execution r
      → Holds
          (Settled station job before)
          (λ v r'. Judged execution v r')
          (verify_sanitization station execution r)
  unfolding verify_sanitization
  verify-Holds execution r s = verify_job-Holds execution _ _ refl (record {
    command = s.command;
    chosen = s.chosen;
    let_through = s.let_through;
    made_by = s.made_by;
    open_run = look_up-Open station job before reading r s.open_run;
  })

  settle-status :
      (execution : Execution) (v : Report) (j : Job)
      → ((settle station execution v j).status ≡ completed) × (v.ok ≡ true)
        ⊎ ((settle station execution v j).status ≡ failed)
  unfolding settle settle_verified settle_failed certify certify_failure
  settle-status execution v j = ground arith

  pub finalize-Settled :
      (execution : Execution) (v : Report) (r : Run)
      → Judged execution v r
      → Settled station job before (finalize_job station execution v r)
  unfolding finalize_job
  finalize-Settled execution v r d = record {
    going =
        waiting-update (λ k. Unit) (λ k. Unit) station finishing r (settle station execution v)
        ∙ d.spent.open_run.going;
    ended =
        update-OfJob (IsSame station job before kept_before) _ station finishing r
          (settle station execution v)
          (λ j _. elim (settle-status execution v j) [
            | inl (done, positive) ↦ was_completed done (record {
              command = d.spent.command;
              chosen = d.spent.chosen;
              spawned =
                  spawned-update (λ k. Unit) (λ k. Unit) station finishing r _
                  ∙ d.spent.open_run.so_far;
              not_blocked = d.spent.let_through;
              verified = rw (← d.spent.made_by) (ap (λ (x : Report). x.ok) (sym d.made) ∙ positive);
            })
            | inr lost ↦ was_failed lost
          ])
          d.spent.open_run.same;
  }
