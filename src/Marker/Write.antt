-- ===== src/Marker/Write.antt =====
-- `build_marker_payload` and `write_marker_and_verify` of backend/verification.py.
use Prim.Native.String
use drive_eraser.Prelude.{
  ℕ, zero, suc, ◌-◌, String, Bool, false, not, ◌&&◌, ◌||◌, Option, none, some, List, [], ◌∷◌, ◌++◌,
  ltb, ◌==◌, length, truthy, get_or, str_eq, is_some, if◌then◌else◌,
}
use drive_eraser.Device.{validate_device_path, check_write_tolerance, untracked}
use drive_eraser.Marker.Dumps.{Value, null, number, text, other, Field, dumps, sort_keys}
use drive_eraser.Marker.Read.{
  marker_signature, marker_block_size, Crypto, DdRun, exited, run_raises, MarkerDetails,
  MarkerStatus, unread, absent, corrupted, checksum_valid, status_raises, MarkerDrive,
  read_marker_status,
}

-- The keys of the job and of its request that the marker tells.
pub record MarkedJob : Type 0 where
  pub friendly_id : Option String
  pub id : Option String
  pub finished_at : Option String
  pub ticket_number : Option String
  pub serial : Option String
  pub method : Option String
  pub data_written_at_wipe : Option ℕ
  pub write_counter_source : Option String
  pub device : Option String
  pub interface_type : Option String

unfoldable pub or_null : Option String → Value
or_null none = null
or_null (some s) = text s

unfoldable pub number_or_null : Option ℕ → Value
number_or_null none = null
number_or_null (some n) = number n

-- The time now is `datetime.now(timezone.utc).isoformat()`.
unfoldable pub payload_fields : (now : String) → MarkedJob → List Field
payload_fields now job =
    ("signature", text marker_signature)
    ∷ ("version", number 1)
    ∷ ("job_id", if truthy job.friendly_id then or_null job.friendly_id else or_null job.id)
    ∷ ("finished_at", if truthy job.finished_at then or_null job.finished_at else text now)
    ∷ ("ticket_number", if truthy job.ticket_number then or_null job.ticket_number else null)
    ∷ ("serial", or_null job.serial)
    ∷ ("method", or_null job.method)
    ∷ ("data_written_at_wipe", number_or_null job.data_written_at_wipe)
    ∷ ("write_counter_source", or_null job.write_counter_source)
    ∷ []

unfoldable pub with_checksum : Crypto → List Field → List Field
with_checksum c fs = fs ++ (("checksum", text (c.sha256 (dumps (sort_keys fs)))) ∷ [])

unfoldable pub with_hmac : Crypto → Option String → List Field → List Field
with_hmac c passphrase fs =
    if truthy passphrase
    then fs ++ (("hmac", text (c.keyed (get_or passphrase "") (dumps (sort_keys fs)))) ∷ [])
    else fs

unfoldable pub marker_fields : Crypto → (now : String) → MarkedJob → Option String → List Field
marker_fields c now job passphrase =
    with_hmac c passphrase (with_checksum c (payload_fields now job))

unfoldable pub build_marker_payload : Crypto → (now : String) → MarkedJob → Option String → List ℕ
build_marker_payload c now job passphrase = dumps (marker_fields c now job passphrase)

-- `b"\x00" * n`
unfoldable pub padding : ℕ → List ℕ
padding zero = []
padding (suc n) = 0 ∷ padding n

unfoldable pub block_of : List ℕ → List ℕ
block_of payload = payload ++ (10 ∷ padding (marker_block_size - length payload - 1))

-- What the function finds on the station: the write of a block, the drive behind it, the counter that is
-- captured if none was handed over, the counter behind the write, and the policy's passphrase; and the
-- texts of the exceptions that `hmac.compare_digest` and `int` of a stored counter raise.
pub record Bench : Type 0 where
  pub dd_path : Option String
  pub write : List ℕ → DdRun
  pub drive : MarkerDrive
  pub baseline : Option ℕ × Option String
  pub current_writes : Option ℕ
  pub passphrase : Option String
  pub now : String
  pub digest_error : String
  pub int_error : Value → String

-- The status "marked" with the details that were read back, or "marker_error" with its error.
pub data Marking : Type 0 where
  marked : (readback : MarkerDetails) → Marking
  marker_error : (error : String) → Marking

source_of : Value → Option String
source_of null = none
source_of (number n) = none
source_of (text s) = some s
source_of (other printed truth) = none

-- `int(stored)` is taken to fail of a stored counter that is neither absent nor a number; the station
-- writes no such marker.
unfoldable pub within : Option String → Option ℕ → (stored source : Value) → Bool
unfolding source_of
within iface current null source = check_write_tolerance iface current none (source_of source)
within iface current (number n) source =
    check_write_tolerance iface current (some n) (source_of source)
within iface current (text t) source = untracked (source_of source) || not (is_some current)
within iface current (other printed truth) source =
    untracked (source_of source) || not (is_some current)

number_true : Option ℕ → Bool
number_true none = false
number_true (some n) = not (n == 0)

-- `int(stored_writes)` in the log line raises, if both counters are true there.
unfoldable pub log_raises : Option ℕ → Value → Bool
unfolding number_true
log_raises current null = false
log_raises current (number n) = false
log_raises current (text t) = number_true current && not (str_eq t "")
log_raises current (other printed truth) = number_true current && truth

-- Behind the write: the marker that is read back must be valid, and the counter must not have grown.
unfoldable pub read_back : Bench → Option String → MarkerStatus → Marking
read_back b iface (unread code) = marker_error code
read_back b iface absent = marker_error "marker_verification_failed:none"
read_back b iface (corrupted code) = marker_error "marker_verification_failed:corrupted"
read_back b iface status_raises =
    marker_error (Prim.Native.String.◌++◌ "marker_exception:" b.digest_error)
read_back b iface (checksum_valid verified details) =
    if log_raises b.current_writes details.data_written_at_wipe
    then marker_error
        (Prim.Native.String.◌++◌ "marker_exception:" (b.int_error details.data_written_at_wipe))
    else if within iface b.current_writes details.data_written_at_wipe details.write_counter_source
    then marked details
    else marker_error "marker_verification_failed:written_since_wipe"

unfoldable pub after_write : Crypto → Bench → (device : String) → Option String → DdRun → Marking
after_write c b device iface (run_raises message) =
    marker_error (Prim.Native.String.◌++◌ "marker_exception:" message)
after_write c b device iface (exited code output) =
    if not (code == 0)
    then marker_error "marker_write_failed"
    else read_back b iface (read_marker_status c b.drive device b.passphrase)

unfoldable pub write_payload : Crypto → Bench → (device : String) → Option String → List ℕ → Marking
write_payload c b device iface payload =
    if ltb (marker_block_size - 1) (length payload)
    then marker_error "marker_payload_too_large"
    else after_write c b device iface (b.write (block_of payload))

-- The request with the counter: as it was handed over, or captured now with its source.
unfoldable pub request_baseline : Bench → Option ℕ → MarkedJob → MarkedJob
request_baseline b (some n) job = record job { data_written_at_wipe = some n }
request_baseline b none job = record job {
  data_written_at_wipe = b.baseline.0;
  write_counter_source = b.baseline.1;
}

unfoldable pub write_job : Crypto → Bench → (device : String) → MarkedJob → Marking
write_job c b device job =
    write_payload c b device job.interface_type (build_marker_payload c b.now job b.passphrase)

unfoldable pub write_on : Crypto → Bench → Option ℕ → MarkedJob → Option String → Marking
write_on c b smart_baseline job none = marker_error "marker_missing_device"
write_on c b smart_baseline job (some device) =
    if str_eq device ""
    then marker_error "marker_missing_device"
    else if not (validate_device_path (some device))
    then marker_error "invalid_device_path"
    else write_job c b device (request_baseline b smart_baseline job)

unfoldable pub write_marker_and_verify : Crypto → Bench → Option ℕ → MarkedJob → Marking
write_marker_and_verify c b smart_baseline job =
    if not (truthy b.dd_path)
    then marker_error "dd_not_available_for_marker_write"
    else write_on c b smart_baseline job job.device
