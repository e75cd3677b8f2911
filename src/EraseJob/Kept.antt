-- ===== src/EraseJob/Kept.antt =====
-- That no stage of an erase job but the spawning one changes what was spawned.
use drive_eraser.Prelude.{
  ℕ, String, ◌≡◌, refl, sym, ap, ◌∙◌, inl, inr, Bool, true, false, not, ◌&&◌, ◌||◌, Option, none,
  some, List, arith, Bool-cases,
}
use drive_eraser.Verification.Report.{Report}
use drive_eraser.Verification.Dispatch.{is_crypto_or_block, is_secure_erase}
use drive_eraser.EraseCommand.{Prepared, ready, refused}
use drive_eraser.EraseJob.State.{
  failed, interrupted, Gate, JobRequest, Execution, Job, Run, Section, beginning, overriding,
  storing, reading, failing, stopping, polling, finishing, blocking, Attempt, returned, raised,
  Station, look_up, update, finalize_failed_job, interrupt,
}
use drive_eraser.EraseJob.Loops.{Ended, complete, timed_out, exhausted, unfinished}
use drive_eraser.EraseJob.Cancelling.{Cancellation, through, stuck, on_wipe_starting}
use drive_eraser.EraseJob.Stages.{
  begun, begin, init_job, override_allowed, pass_gate, store_before, log_opened, prepared,
  after_wait, after_polling, poll_firmware_completion,
}
use drive_eraser.EraseJob.Finish.{verify_job, verify_sanitization, settle, finalize_job}
use drive_eraser.EraseJob.Rules.{OfJob, spawned-look_up, spawned-update}

module _ (station : Station) where
  pub kept_by_update :
      (section : Section) (f : Job → Job) (r : Run)
      → (update station section f r).spawned ≡ r.spawned
  kept_by_update section f r = spawned-update (λ j. Unit) (λ j. Unit) station section r f

  pub kept_by_look_up :
      (section : Section) (r : Run) → (look_up station section r).spawned ≡ r.spawned
  kept_by_look_up section r = spawned-look_up (λ j. Unit) (λ j. Unit) station section r

  pub kept_by_failure :
      (message : String) (r : Run) → (finalize_failed_job station message r).spawned ≡ r.spawned
  unfolding finalize_failed_job
  kept_by_failure message r =
      kept_by_update failing
        (λ job. record job { status = failed; finished = true; error = some message }) r

  pub kept_by_interrupt :
      (section : Section) (message : String) (r : Run)
      → (interrupt station section message r).spawned ≡ r.spawned
  unfolding interrupt
  kept_by_interrupt section message r =
      kept_by_update section
        (λ job. record job { status = interrupted; finished = true; error = some message }) r

  kept_by_begun :
      (q : JobRequest) (r : Run) (c : Cancellation) → (begun q r c).run.spawned ≡ r.spawned
  unfolding begun
  kept_by_begun q r (through w) = refl
  kept_by_begun q r (stuck w) = refl

  pub kept_by_begin : (o : Option Job) (r : Run) → (begin station o r).run.spawned ≡ r.spawned
  unfolding begin
  kept_by_begin none r = refl
  kept_by_begin (some j) r =
      kept_by_begun _ _ (on_wipe_starting station j.request.bay r.zero_checks)

  handed_by_begun :
      (q : JobRequest) (r : Run) (c : Cancellation) {given : JobRequest}
      → (begun q r c).value ≡ some given
      → q ≡ given
  unfolding begun
  handed_by_begun q r (through w) e = ground (arith, e)
  handed_by_begun q r (stuck w) e = cc e

  -- The request that a job hands on is its own.
  pub handed_by_begin :
      (q : JobRequest) (o : Option Job) (r : Run) {given : JobRequest}
      → OfJob (λ j. j.request ≡ q) o
      → (begin station o r).value ≡ some given
      → given ≡ q
  unfolding begin
  handed_by_begin q none r same e = cc e
  handed_by_begin q (some j) r same e =
      sym (handed_by_begun _ _ (on_wipe_starting station j.request.bay r.zero_checks) e) ∙ same

  pub kept_by_init : (r : Run) → (init_job station r).run.spawned ≡ r.spawned
  unfolding init_job
  kept_by_init r = kept_by_begin _ _ ∙ kept_by_look_up beginning r

  pub kept_by_gate :
      (q : JobRequest) (gate : Gate) (r : Run)
      → (pass_gate station q gate r).run.spawned ≡ r.spawned
  unfolding pass_gate
  kept_by_gate q gate r = elim (Bool-cases (not gate.blocked)) [
    | inl clear ↦ simp (clear)
    | inr blocked ↦ elim (Bool-cases (q.health_gate_override && override_allowed station.policy)) [
      | inl allowed ↦ simp (blocked, allowed) (kept_by_update overriding _ r)
      | inr forbidden ↦
          simp (blocked, forbidden) (kept_by_failure _ _ ∙ kept_by_update blocking _ r)
    ]
  ]

  pub kept_by_store : (b : Bool) (r : Run) → (store_before station b r).spawned ≡ r.spawned
  unfolding store_before
  kept_by_store false r = refl
  kept_by_store true r = kept_by_update storing _ r

  pub kept_by_log :
      (c : List String) (a : Attempt (Unit {0})) (r : Run)
      → (log_opened station c a r).run.spawned ≡ r.spawned
  unfolding log_opened
  kept_by_log c (returned u) r = refl
  kept_by_log c (raised m) r = kept_by_failure _ r

  pub kept_by_prepared : (p : Prepared) (r : Run) → (prepared station p r).run.spawned ≡ r.spawned
  unfolding prepared
  kept_by_prepared (ready c) r = kept_by_log c station.open_log r
  kept_by_prepared (refused m) r = kept_by_failure _ r

  pub handed_by_log :
      (c : List String) (a : Attempt (Unit {0})) (r : Run) {d : List String}
      → (log_opened station c a r).value ≡ some d
      → c ≡ d
  unfolding log_opened
  handed_by_log c (returned u) r e = ground (arith, e)
  handed_by_log c (raised m) r e = cc e

  pub handed_by_prepared :
      (p : Prepared) (r : Run) {d : List String}
      → (prepared station p r).value ≡ some d
      → p ≡ ready d
  unfolding prepared
  handed_by_prepared (ready c) r e = ap ready (handed_by_log c station.open_log r e)
  handed_by_prepared (refused m) r e = cc e

  pub kept_by_wait :
      (m : String) (c : List String) (e : Ended) (r : Run)
      → (after_wait station m c e r).run.spawned ≡ r.spawned
  unfolding after_wait
  kept_by_wait m c (complete n) r = refl
  kept_by_wait m c (Ended.interrupted n) r = kept_by_interrupt stopping _ r
  kept_by_wait m c (timed_out n) r = kept_by_failure _ r
  kept_by_wait m c (exhausted n) r = refl
  kept_by_wait m c unfinished r = refl

  pub kept_by_polling :
      (m : String) (e : Ended) (r : Run) → (after_polling station m e r).run.spawned ≡ r.spawned
  unfolding after_polling
  kept_by_polling m (complete n) r = refl
  kept_by_polling m (Ended.interrupted n) r = kept_by_interrupt polling _ r
  kept_by_polling m (timed_out n) r = kept_by_failure _ r
  kept_by_polling m (exhausted n) r = kept_by_failure _ r
  kept_by_polling m unfinished r = refl

  pub kept_by_firmware :
      (rounds : ℕ) (q : JobRequest) (r : Run)
      → (poll_firmware_completion station rounds q r).run.spawned ≡ r.spawned
  unfolding poll_firmware_completion
  kept_by_firmware rounds q r =
      elim (Bool-cases (is_crypto_or_block q.method || is_secure_erase q.method)) [
        | inl firmware ↦ rw firmware (kept_by_polling q.method _ r)
        | inr overwriting ↦ rw overwriting refl
      ]

  pub kept_by_verify_job :
      (x : Execution) (o : Option Job) (r : Run)
      → (verify_job station x o r).run.spawned ≡ r.spawned
  unfolding verify_job
  kept_by_verify_job x none r = refl
  kept_by_verify_job x (some j) r = refl

  pub kept_by_verify :
      (x : Execution) (r : Run) → (verify_sanitization station x r).run.spawned ≡ r.spawned
  unfolding verify_sanitization
  kept_by_verify x r = kept_by_verify_job x _ _ ∙ kept_by_look_up reading r

  pub kept_by_finalize :
      (x : Execution) (v : Report) (r : Run) → (finalize_job station x v r).spawned ≡ r.spawned
  unfolding finalize_job
  kept_by_finalize x v r = kept_by_update finishing (settle station x v) r
