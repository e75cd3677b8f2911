-- ===== src/Marker/Marked.antt =====
-- What `write_marker_and_verify` comes to, by the growth of the write counter.
use mathlib.Core.Path.{subst}
use drive_eraser.Prelude.{
  ℕ, ◌-◌, ◌≤◌, ◌≡◌, refl, ap, ◌∙◌, String, true, false, not, Option, none, some, List, arith, ltb,
  length, str_eq, truthy, Bool-cases, inl, inr, eq_iff, if◌then◌else◌,
}
use drive_eraser.Device.{validate_device_path, check_write_tolerance}
use drive_eraser.Marker.Read.{marker_block_size, Crypto, exited}
use drive_eraser.Marker.Write.{
  MarkedJob, or_null, number_or_null, build_marker_payload, block_of, Bench, marked, marker_error,
  within, log_raises, read_back, after_write, write_payload, request_baseline, write_job, write_on,
  Marking, write_marker_and_verify,
}
use drive_eraser.Device.Path.{valid_codes, has_dots, matches, segments}
use drive_eraser.Device.Tolerance.{IsTolerated, check_write_tolerance_iff}
use drive_eraser.Marker.RoundTrip.{told, Readable, read_marker_status-block_of}

le-ltb : (a b : ℕ) → a ≤ b → ltb b a ≡ false
le-ltb a b h = ground arith

valid_path_ne :
    (device : String) → validate_device_path (some device) ≡ true → str_eq device "" ≡ false
unfolding validate_device_path valid_codes has_dots matches segments
valid_path_ne device h = elim (Bool-cases (str_eq device "")) [
  | inl empty ↦
      let bad : validate_device_path (some "") ≡ true =
        subst (λ (d : String). validate_device_path (some d) ≡ true) ((eq_iff device "").0 empty)
          h in
      cc bad
  | inr nonempty ↦ nonempty
]

within_told :
    (iface : Option String) (current stored : Option ℕ) (source : Option String)
    → within iface current (number_or_null stored) (or_null source)
      ≡ check_write_tolerance iface current stored source
unfolding within number_or_null or_null
within_told iface current none none = refl
within_told iface current none (some s) = refl
within_told iface current (some n) none = refl
within_told iface current (some n) (some s) = refl

log_told : (current stored : Option ℕ) → log_raises current (number_or_null stored) ≡ false
unfolding log_raises number_or_null
log_told current none = refl
log_told current (some n) = refl

write_on_marks :
    (c : Crypto) (b : Bench) (baseline : Option ℕ) (job : MarkedJob) (device : String)
    (out : List ℕ)
    → validate_device_path (some device) ≡ true
    → Readable c b.now (request_baseline b baseline job) b.passphrase b.drive
    → b.write
        (block_of (build_marker_payload c b.now (request_baseline b baseline job) b.passphrase))
      ≡ exited 0 out
    → write_on c b baseline job (some device) ≡ (
        if check_write_tolerance
          (request_baseline b baseline job).interface_type
          b.current_writes
          (request_baseline b baseline job).data_written_at_wipe
          (request_baseline b baseline job).write_counter_source
        then marked (told b.now (request_baseline b baseline job))
        else marker_error "marker_verification_failed:written_since_wipe")
unfolding write_on write_job write_payload after_write read_back
write_on_marks c b baseline job device out valid r done =
    let job' = request_baseline b baseline job in
    let payload = build_marker_payload c b.now job' b.passphrase in
    let small = le-ltb (length payload) (marker_block_size - 1) (omega (arith, r.fits)) in
    rw
      (
        valid_path_ne device valid,
        valid,
        not,
        small,
        done,
        after_write,
        read_marker_status-block_of c b.now job' b.passphrase b.drive device r valid,
        read_back,
        log_told b.current_writes job'.data_written_at_wipe,
        within_told job'.interface_type b.current_writes job'.data_written_at_wipe
            job'.write_counter_source,
      )
      refl

-- What a marker of the job that was written and read back comes to, by the growth of the counter.
pub data MarkedBy (now : String) (current : Option ℕ) (job : MarkedJob) (out : Marking)
    : Type 0 where
  kept_pristine :
      IsTolerated job.interface_type current job.data_written_at_wipe job.write_counter_source
      → out ≡ marked (told now job)
      → MarkedBy now current job out
  written_since :
      ¬ IsTolerated job.interface_type current job.data_written_at_wipe job.write_counter_source
      → out ≡ marker_error "marker_verification_failed:written_since_wipe"
      → MarkedBy now current job out

by_tolerance :
    (now : String) (current : Option ℕ) (job : MarkedJob) (out : Marking)
    → out ≡ (
        if check_write_tolerance job.interface_type current job.data_written_at_wipe
          job.write_counter_source
        then marked (told now job)
        else marker_error "marker_verification_failed:written_since_wipe")
    → MarkedBy now current job out
by_tolerance now current job out e =
    let same =
      check_write_tolerance_iff job.interface_type current job.data_written_at_wipe
        job.write_counter_source in
    elim (Bool-cases (
      check_write_tolerance job.interface_type current job.data_written_at_wipe
        job.write_counter_source)) [
          | inl within ↦ kept_pristine (same.0 within) (rw within at e)
          | inr beyond ↦
              written_since (λ t. let within = same.1 t in cc (within, beyond)) (rw beyond at e)
        ]

-- If dd is there, the path of the job's device is valid, the write succeeds and the drive gives back the
-- block of the job with its baseline as in the round trip, then the drive is marked, with the job's
-- details, exactly when the growth of its write counter is tolerated: where the counter is not tracked
-- or a value of it is unknown, or when it has not gone back and has grown by at most 4, or by at most
-- 4096 on a drive whose interface does not name NVMe and whose counter is not read from the cache page
-- of a Seagate drive. Otherwise the error says that it was written since the wipe.
pub write_marker_and_verify-marks :
    (c : Crypto) (b : Bench) (baseline : Option ℕ) (job : MarkedJob) (device : String)
    (out : List ℕ)
    → truthy b.dd_path ≡ true
    → job.device ≡ some device
    → validate_device_path (some device) ≡ true
    → Readable c b.now (request_baseline b baseline job) b.passphrase b.drive
    → b.write
        (block_of (build_marker_payload c b.now (request_baseline b baseline job) b.passphrase))
      ≡ exited 0 out
    → MarkedBy b.now b.current_writes
        (request_baseline b baseline job)
        (write_marker_and_verify c b baseline job)
unfolding write_marker_and_verify
write_marker_and_verify-marks c b baseline job device out tool at valid r done =
    by_tolerance b.now b.current_writes (request_baseline b baseline job) _ (
      rw (tool, not)
        (ap (write_on c b baseline job) at
          ∙ write_on_marks c b baseline job device out valid r done))
