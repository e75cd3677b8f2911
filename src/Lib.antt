-- ===== src/Lib.antt =====
-- Drive Eraser: the checks before an erase, the verification after it, and the zero checks.
--
-- The program is the backend of a station that erases drives. A request to erase the drive of a bay
-- is checked (backend/job_validation.py); a job runs the erase command; its result is verified with
-- the drive's own status (backend/verification.py) and by reading samples
-- (backend/crypto_verification.py); and besides, inserted drives are checked in the background for
-- being empty already (backend/zero_check_manager.py). All
-- of them name drives by device paths, which backend/disk_utils.py validates. The job itself is in
-- backend/job_management.py, and its command comes from backend/erase_commands.py.
--
-- Prelude has the helpers: Boolean tests, lists over native numbers, and Python's text functions on
-- ASCII texts. Config has the drives and the policy as the checks read them.
-- JobValidation models `build_recommended_method` and `validate_single_bay`: a refusal is the pair of
-- message and HTTP status, and a chain of checks is a `do` block.
-- Device models `validate_device_path` (Device/Path, a matcher for the regular expression),
-- `_find_json_bounds` (Device/Json) and `check_write_tolerance`, and has the tools: the path of a
-- command and the answer of running it are parameters everywhere.
-- Verification has one file for each check of backend/verification.py: Nvme (`verify_nvme_sanitize`
-- with `parse_numeric_field` in Nvme/Field), Sata (`verify_sata_sanitize`), SataErase
-- (`verify_sata_secure_erase` with the security section of hdparm's output), Sas (`verify_sas_block`),
-- Overwrite (`verify_overwrite`), and Dispatch (`verification_for_method`, whose checks are arguments).
-- Sampled models backend/crypto_verification.py: Retry the repeated blockdev and dd, Offsets
-- `_generate_sampled_offsets`, Station what one call finds, Zeros `verify_sampled_zero_check`, Hashes
-- `capture_before_state` and `verify_crypto_hash_comparison`, Probe `verify_crypto_probe` and how
-- Dispatch takes these checks in, ZoneRead `_run_cancellable_zone_read` with the events of its two
-- threads, and Detection `check_drive_already_zeroed`.
-- Marker models the block that marks an erased drive: Dumps is `json.dumps` of a flat object, Read
-- `read_marker_status` of backend/disk_utils.py, and Write `build_marker_payload` and
-- `write_marker_and_verify` of backend/verification.py.
-- EraseCommand models `prepare_erase_command`. EraseJob models `run_erase_job`: State has the job and the
-- station's answers, Loops the two loops (`_execute_erase_subprocess` waiting, and
-- `_poll_firmware_completion`), Cancelling the cancellation of the bay's zero check, in which a job may
-- wait for ever, Stages the stages up to the polling, and Finish `_verify_sanitization`,
-- `_finalize_job` and the whole; a stage hands a value on or ends the job. Request has
-- `create_erase_job` and `check_health_gate_sync`, which lead from a request to a job.
-- HealthGate models the check that a job makes of a drive before it erases: DevicePath is
-- `validate_device_path` of backend/smart_utils.py, Score the overriding of the score and the recommendation of
-- backend/smart_health.py, whose floating point figures are parameters, and Gate `pre_wipe_health_gate` of
-- backend/smart_health_gate.py, the answer that EraseJob takes as given; Refused puts the gate into a
-- job. LogHours is `correct_self_test_log_hours` of backend/smart_constants.py.
-- ZeroCheck models the class `ZeroCheckManager`: Manager is its state, Sections has a function for each
-- section of code under the lock, and Threads the callers and workers as lists of sections still to
-- run; a step of a `World` is a call, a section of a thread or a section of a worker, and `Reach` is
-- any sequence of steps, so that a theorem about it holds in every interleaving.
-- The modules below a component (Sound, Grammar, Bounds, Verdict, Zones, Attested, Slots, Generations,
-- Deadlock, Tolerance, Target, Settle, Settled, Waiting, Blocked, Kept, Spawns, Cleared, Told, Spaced, Clean,
-- Compared, Judged, Replaced, Wiped, Evidence, Calm, Layout, Zeroed,
-- Scanned, Parsed, RoundTrip, Marked, Conditions, Refused, Rollover) prove its theorems, and Samples
-- has inputs on which they apply.
--
-- Loops are structural recursion: over the zones, the lines, the bytes, and the five attempts to
-- read a status, the retries, which are counted, the sampled offsets. The two loops of an erase job run on fuel, their number of rounds; since their rounds
-- sleep three and four seconds, the time limit divided by that, and two, is enough. Times are whole
-- microseconds, as the source's clock has them. Numbers are naturals, as the source's integers are
-- unbounded; where the source subtracts, the model tests the order first.
--
-- Not modelled: running commands, files, the database, HTTP, time stamps and log lines; texts that are
-- not ASCII; the raw outputs that reports carry along; exceptions that no function of the model's parts
-- catches, as those of `subprocess.run` in `_run_blockdev_getsize64` but for the timeout; and the other
-- components of the backend.
pub mod Prelude
pub mod Config
pub mod JobValidation
pub mod Device
pub mod Verification
pub mod Sampled
pub mod Marker
pub mod ZeroCheck
pub mod EraseCommand
pub mod EraseJob
pub mod HealthGate
mod Samples
