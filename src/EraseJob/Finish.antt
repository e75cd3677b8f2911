-- ===== src/EraseJob/Finish.antt =====
-- The verification of an erase job, its end, and the whole of `run_erase_job`.
use drive_eraser.Prelude.{
  ℕ, String, true, not, ◌&&◌, Option, none, some, [], ◌∷◌, ◌++◌, truthy, or_else, if◌then◌else◌,
}
use drive_eraser.Verification.Report.{Report}
use drive_eraser.Verification.Dispatch.{verification_for_method}
use drive_eraser.EraseJob.State.{
  completed, failed, JobRequest, Execution, Marker, Job, Run, reading, finishing, Attempt, returned,
  raised, Station, look_up, update,
}
use drive_eraser.EraseJob.Stages.{
  Passed, ends, goes_on, concat, shown, init_job, check_health_gate, capture_pre_wipe_state,
  prepare, execute, poll_firmware_completion,
}

-- `_verify_sanitization`, with the job as it is found
unfoldable pub verify_job : Station → Execution → Option Job → Run → Passed Report
verify_job station execution none r = ends r
verify_job station execution (some job) r =
    goes_on
      (verification_for_method station.checks job.request.device job.request.interface_type
        (some job.request.method) station.modes execution.ok job.has_before)
      r

unfoldable pub verify_sanitization : Station → Execution → Run → Passed Report
verify_sanitization station execution r =
    let r' = look_up station reading r in verify_job station execution r'.job r'

abbrev warn : String → Job → Job
warn message job = record job { warnings = job.warnings ++ message ∷ [] }

-- the result of the erase command and of the verification, with a warning if only the latter is good
unfoldable pub recorded : Station → Execution → Report → Job → Job
recorded station execution verification job =
    let job' = record job {
      finished = true;
      result = some execution;
      warnings = [];
      verification = some verification;
    } in
    if verification.ok && not execution.ok
    then warn
        (concat (
          "Initiation process returned non-zero code ("
          ∷ station.show_exit execution.exit_code
          ∷ "), but hardware-level sanitization status verified successfully."
          ∷ []))
        job'
    else job'

-- the source of the write counter goes into the request before the marker is written
unfoldable pub with_counter_source : Option String → Job → Job
with_counter_source source job =
    if truthy source
    then record job { request = record job.request { write_counter_source = source } }
    else job

unfoldable pub with_marker : Marker → Job → Job
with_marker marker job =
    let job' = record job { marker = some marker } in
    if marker.ok
    then job'
    else warn
        (concat (
          "Supplemental station marker failed ("
          ∷ or_else marker.error marker.status
          ∷ "); sanitization certification is based on wipe verification evidence."
          ∷ []))
        job'

abbrev unwritten : String → Marker
unwritten status = record { ok = true; status = status; error = none }

unfoldable pub write_mark : Station → Report → Job → Job
write_mark station verification job =
    with_marker (station.write_marker job verification.details.smart_baseline_for_marker) job

unfoldable pub mark : Station → Report → Job → Job
mark station verification job =
    if station.post_erase_marker && not job.request.disable_marker
    then write_mark station verification
        (with_counter_source verification.details.write_counter_source job)
    else record job {
      marker = some (
          unwritten
            (if job.request.disable_marker then "disabled_per_request" else "disabled_by_policy"));
    }

unfoldable pub certify : Attempt String → Job → Job
certify (returned certificate) job = record job {
  certificate = some certificate;
  status = completed;
  error = none;
}
certify (raised e) job =
    record (warn
      (concat (
        "Certificate generation failed: " ∷ e
        ∷ ". Sanitization succeeded but audit record could not be finalized." ∷ []))
      job) { status = completed; error = none; certificate = none }

unfoldable pub failure_message : Station → Execution → Report → String
failure_message station execution verification = concat (
    (if execution.ok
      then or_else verification.error "erase_verification_failed"
      else concat (
          "Initiation failed ("
          ∷ station.show_exit execution.exit_code
          ∷ "). Verification report: "
          ∷ or_else verification.error "failed"
          ∷ []))
    ∷ " | Details: "
    ∷ station.show_details verification.details
    ∷ [])

unfoldable pub certify_failure : Attempt String → Job → Job
certify_failure (returned certificate) job = record job { certificate = some certificate }
certify_failure (raised e) job = record job {
  error =
      some
        (concat (shown job.error ∷ " (and failure_certificate_generation_failed:" ∷ e ∷ ")" ∷ []));
  certificate = none;
}

unfoldable pub settle_verified : Station → Job → Job
settle_verified station job = certify (station.build_certificate job) job

unfoldable pub settle_failed : Station → Job → Job
settle_failed station job = certify_failure (station.build_certificate job) job

-- `_finalize_job` on the job, without the SMART comparison
unfoldable pub settle : Station → Execution → Report → Job → Job
settle station execution verification job =
    let job' = recorded station execution verification job in
    if verification.ok
    then settle_verified station (mark station verification job')
    else settle_failed station (record job' {
      status = failed;
      error = some (failure_message station execution verification);
    })

unfoldable pub finalize_job : Station → Execution → Report → Run → Run
finalize_job station execution verification r =
    update station finishing (settle station execution verification) r

-- the next stage, on what the one before hands on
unfoldable pub continue {ℓ} : {A : Type ℓ} → Passed A → (A → Run → Run) → Run
continue passed next = elim passed.value [ none ↦ passed.run | some a ↦ next a passed.run ]

-- `run_erase_job` behind `_init_job`
unfoldable pub run_initialized :
    Station → (execution_rounds polling_rounds : ℕ) → JobRequest → Run → Run
run_initialized station execution_rounds polling_rounds request r1 =
    continue (check_health_gate station request r1) (λ _ r2.
      continue (prepare station request (capture_pre_wipe_state station r2)) (λ command r3.
        continue (execute station execution_rounds request.method command r3) (λ execution r4.
          continue (poll_firmware_completion station polling_rounds request r4) (λ _ r5.
            continue (verify_sanitization station execution r5)
              (λ verification r6. finalize_job station execution verification r6)))))

unfoldable pub run_erase_job : Station → (execution_rounds polling_rounds : ℕ) → Run → Run
run_erase_job station execution_rounds polling_rounds r =
    continue (init_job station r)
      (λ request r1. run_initialized station execution_rounds polling_rounds request r1)
