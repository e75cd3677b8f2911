-- ===== src/EraseJob/Spawns.antt =====
-- Which erase commands a run of an erase job spawns, however it ends.
use mathlib.Core.Path.{subst}
use drive_eraser.Prelude.{
  ℕ, String, ◌≡◌, refl, sym, ap, ◌∙◌, Bool, true, false, Option, none, some, List, ◌∷◌,
  if◌then◌else◌,
}
use drive_eraser.EraseCommand.{ready}
use drive_eraser.ZeroCheck.Threads.{World}
use drive_eraser.EraseJob.State.{
  JobRequest, Execution, Job, Run, beginning, spawning, Attempt, returned, raised, Station, look_up,
}
use drive_eraser.EraseJob.Stages.{
  Passed, init_job, check_health_gate, store_before, capture_pre_wipe_state, choose_command,
  prepared, prepare, spawned_as, execute, poll_firmware_completion,
}
use drive_eraser.EraseJob.Finish.{verify_sanitization, run_initialized, run_erase_job}
use drive_eraser.EraseJob.Rules.{Holds, OfJob, ends-Holds, continue-Holds}
use drive_eraser.EraseJob.Kept.{
  kept_by_look_up, kept_by_failure, kept_by_begin, handed_by_begin, kept_by_gate, kept_by_store,
  kept_by_prepared, handed_by_prepared, kept_by_wait, kept_by_firmware, kept_by_verify,
  kept_by_finalize,
}

-- Nothing was spawned, or the command of the request and no other.
pub data Spares (station : Station) (q : JobRequest) (before after : List (List String))
    : Type 0 where
  nothing : after ≡ before → Spares station q before after
  one :
      (command : List String)
      → choose_command station q ≡ ready command
      → after ≡ command ∷ before
      → Spares station q before after

module _ (station : Station) (q : JobRequest) (before : List (List String)) where
  abbrev Spared : Run → Type 0
  Spared out = Spares station q before out.spawned

  -- a stage whose run is known to spawn no more
  by_run {ℓ} :
      {A : Type ℓ} {s : List (List String)} (p : Passed A)
      → p.run.spawned ≡ s
      → ((r : Run) → r.spawned ≡ s → Spared r)
      → Holds Spared (λ (a : A) r. r.spawned ≡ s) p
  by_run p e h = record { at_end = λ none_left. h p.run e; handed = λ a given. e }

  spawned_as-Spared :
      (rounds : ℕ) (c : List String) (a : Attempt (Unit {0})) (r : Run)
      → choose_command station q ≡ ready c
      → r.spawned ≡ before
      → Holds Spared
          (λ (x : Execution) r'. r'.spawned ≡ c ∷ before)
          (spawned_as station rounds q.method c a r)
  unfolding spawned_as
  spawned_as-Spared rounds c (raised m) r chosen e =
      ends-Holds _ (nothing (kept_by_failure station _ r ∙ e))
  spawned_as-Spared rounds c (returned u) r chosen e =
      by_run _
        (kept_by_wait station q.method c _ _
          ∙ kept_by_look_up station spawning _
          ∙ ap (λ s. c ∷ s) e)
        (λ r'. one c chosen)

  prepared-Spared :
      (r : Run)
      → r.spawned ≡ before
      → Holds Spared
          (λ c r'. (choose_command station q ≡ ready c) × (r'.spawned ≡ before))
          (prepared station (choose_command station q) r)
  prepared-Spared r e = record {
    at_end = λ ended. nothing (kept_by_prepared station (choose_command station q) r ∙ e);
    handed = λ c given. (
      handed_by_prepared station (choose_command station q) r given,
      kept_by_prepared station (choose_command station q) r ∙ e,
    );
  }

  -- a stage behind the one that spawns
  behind {ℓ} :
      {A : Type ℓ} (c : List String) (p : Passed A)
      → choose_command station q ≡ ready c
      → p.run.spawned ≡ c ∷ before
      → Holds Spared (λ (a : A) r. r.spawned ≡ c ∷ before) p
  behind c p chosen e = by_run p e (λ r. one c chosen)

  run_initialized-Spared :
      (er pr : ℕ) (r : Run) → r.spawned ≡ before → Spared (run_initialized station er pr q r)
  unfolding run_initialized check_health_gate prepare capture_pre_wipe_state execute
  run_initialized-Spared er pr r e =
      continue-Holds {P = Spared} _ _ (by_run _ (kept_by_gate station q _ r ∙ e) (λ r'. nothing))
        (λ _ r2 e2.
          continue-Holds {P = Spared} _ _
            (prepared-Spared (store_before station station.before_ok r2)
              (kept_by_store station station.before_ok r2 ∙ e2))
            (λ c r3 (chosen, e3).
              continue-Holds {P = Spared} _ _ (spawned_as-Spared er c station.spawn r3 chosen e3)
                (λ x r4 e4.
                  continue-Holds {P = Spared} _ _
                    (behind c (poll_firmware_completion station pr q r4) chosen
                      (kept_by_firmware station pr q r4 ∙ e4))
                    (λ _ r5 e5.
                      continue-Holds {P = Spared} _ _
                        (behind c (verify_sanitization station x r5) chosen
                          (kept_by_verify station x r5 ∙ e5))
                        (λ v r6 e6. one c chosen (kept_by_finalize station x v r6 ∙ e6))))))

-- A run of an erase job spawns the command of its request once, or nothing, and no other erase
-- command; this holds however the run ends and however many rounds its loops have.
pub run_erase_job-Spares :
    (station : Station) (job : Job) (before : List (List String)) (z : World)
    (execution_rounds polling_rounds : ℕ)
    → Spares station job.request before
        (run_erase_job station execution_rounds polling_rounds
          (record { job = some job; spawned = before; zero_checks = z; waiting = false })).spawned
unfolding run_erase_job init_job look_up
run_erase_job-Spares station job before z er pr =
    continue-Holds {P = Spared station job.request before}
      {Q = λ q r. (q ≡ job.request) × (r.spawned ≡ before)} _ _
      (record {
        at_end = λ ended. nothing (kept_by_begin station _ _ ∙ kept_by_look_up station beginning _);
        handed = λ q given. (
          handed_by_begin station job.request _ _ (start_request (station.deleted beginning)) given,
          kept_by_begin station _ _ ∙ kept_by_look_up station beginning _,
        );
      })
      (λ q r (e, s).
        subst (λ x. Spared station job.request before (run_initialized station er pr x r)) (sym e)
          (run_initialized-Spared station job.request before er pr r s))
  where
    job_of : Run → Option Job
    job_of r = r.job

    empty : Run
    empty = record { job = none; spawned = before; zero_checks = z; waiting = false }

    full : Run
    full = record { job = some job; spawned = before; zero_checks = z; waiting = false }

    start_request :
        (gone : Bool) → OfJob (λ j. j.request ≡ job.request) (job_of (if gone then empty else full))
    start_request true = tt
    start_request false = refl
