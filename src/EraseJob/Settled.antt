-- ===== src/EraseJob/Settled.antt =====
-- How an erase job ends, and what a completed job rests on.
pub mod Stages
pub mod Verdict
pub mod Finish
use drive_eraser.Prelude.{
  String, ◌≡◌, refl, ◌∙◌, ◌⊎◌, Bool, true, false, ◌||◌, Option, none, some, List, ◌∷◌, get_or,
}
use drive_eraser.Verification.Dispatch.{verification_for_method}
use drive_eraser.EraseCommand.{ready}
use drive_eraser.EraseJob.State.{
  completed, failed, interrupted, Job, Run, Section, failing, Station, look_up, update,
  finalize_failed_job, interrupt,
}
use drive_eraser.EraseJob.Stages.{override_allowed, choose_command, execution_of}
use drive_eraser.EraseJob.Rules.{
  OfJob, look_up-OfJob, update-OfJob, spawned-look_up, spawned-update, waiting-look_up,
  waiting-update,
}

-- What a completed job rests on: the health gate let it pass, the erase command was spawned once and
-- no other, and the verification behind it is positive. The verification is told whether that command
-- succeeded, and whether the state from before the erase is there: captured in this run, or by the job.
pub record Erased (station : Station) (job : Job) (before after : List (List String)) : Type 0 where
  pub command : List String
  pub chosen : choose_command station job.request ≡ ready command
  pub spawned : after ≡ command ∷ before
  pub not_blocked :
      (get_or job.health_gate_result
          (station.pre_wipe_health_gate job.request.device job.request.interface_type)).blocked
        ≡ false
      ⊎ (job.request.health_gate_override ≡ true) × (override_allowed station.policy ≡ true)
  pub verified :
      (verification_for_method station.checks job.request.device job.request.interface_type
        (some job.request.method)
        station.modes
        (execution_of station job.request.method command).ok
        (station.before_ok || job.has_before)).ok
      ≡ true

pub data Ending (station : Station) (job : Job) (before after : List (List String)) (j : Job)
    : Type 0 where
  was_completed :
      j.status ≡ completed → Erased station job before after → Ending station job before after j
  was_failed : j.status ≡ failed → Ending station job before after j
  was_interrupted : j.status ≡ interrupted → Ending station job before after j

any_job : (o : Option Job) → OfJob (λ j. Unit {0}) o
any_job none = tt
any_job (some j) = tt

module _ (station : Station) (job : Job) (before : List (List String)) where
  -- What is to be shown of the end, and what holds on the way.
  pub record Settled (out : Run) : Type 0 where
    pub going : out.waiting ≡ false
    pub ended : OfJob (Ending station job before out.spawned) out.job

  abbrev pub IsSame : Bool → Job → Type 0
  IsSame kept j = (j.request ≡ job.request) × (j.has_before ≡ kept)

  -- `kept` tells whether the job has the state from before its erase.
  pub record Open (kept : Bool) (spawned : List (List String)) (r : Run) : Type 0 where
    pub same : OfJob (IsSame kept) r.job
    pub so_far : r.spawned ≡ spawned
    pub going : r.waiting ≡ false

  pub failed-Settled :
      (message : String) (r : Run)
      → r.waiting ≡ false
      → Settled (finalize_failed_job station message r)
  unfolding finalize_failed_job
  failed-Settled message r going = record {
    going =
        waiting-update (λ j. Unit) (λ j. Unit) station failing r
          (λ j. record j { status = failed; finished = true; error = some message })
        ∙ going;
    ended =
        update-OfJob (λ j. Unit) (Ending station job before _) station failing r _
          (λ j _. was_failed refl) (any_job r.job);
  }

  pub interrupted-Settled :
      (section : Section) (message : String) (r : Run)
      → r.waiting ≡ false
      → Settled (interrupt station section message r)
  unfolding interrupt
  interrupted-Settled section message r going = record {
    going =
        waiting-update (λ j. Unit) (λ j. Unit) station section r
          (λ j. record j { status = interrupted; finished = true; error = some message })
        ∙ going;
    ended =
        update-OfJob (λ j. Unit) (Ending station job before _) station section r _
          (λ j _. was_interrupted refl) (any_job r.job);
  }

  pub update-Open :
      {s : List (List String)} {kept kept' : Bool} (section : Section) (f : Job → Job) (r : Run)
      → ((j : Job) → IsSame kept j → IsSame kept' (f j))
      → Open kept s r
      → Open kept' s (update station section f r)
  update-Open {kept} {kept'} section f r keeps o = record {
    same = update-OfJob (IsSame kept) (IsSame kept') station section r f keeps o.same;
    so_far = spawned-update (λ j. Unit) (λ j. Unit) station section r f ∙ o.so_far;
    going = waiting-update (λ j. Unit) (λ j. Unit) station section r f ∙ o.going;
  }

  pub look_up-Open :
      {s : List (List String)} {kept : Bool} (section : Section) (r : Run)
      → Open kept s r
      → Open kept s (look_up station section r)
  look_up-Open {kept} section r o = record {
    same = look_up-OfJob (IsSame kept) (λ j. Unit) station section r o.same;
    so_far = spawned-look_up (λ j. Unit) (λ j. Unit) station section r ∙ o.so_far;
    going = waiting-look_up (λ j. Unit) (λ j. Unit) station section r ∙ o.going;
  }
