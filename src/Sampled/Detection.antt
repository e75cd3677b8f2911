-- ===== src/Sampled/Detection.antt =====
-- `check_drive_already_zeroed` of backend/crypto_verification.py: five zones of a drive, or the whole of a
-- small one, are streamed and must be zeros. `details` is left out, and so is the lock of the device.
-- The divisors of the policy, the number of zones and the block size, are positive numbers.
pub mod Layout
pub mod Zeroed
use drive_eraser.Prelude.{
  ℕ, zero, suc, ◌+◌, ◌-◌, ◌*◌, ◌/◌, min, max, String, Bool, true, false, not, Option, none, some,
  List, [], ◌∷◌, ◌==◌, leb, str_eq, if◌then◌else◌,
}
use drive_eraser.Device.{validate_device_path}
use drive_eraser.Sampled.Retry.{Result, ok, error}
use drive_eraser.Sampled.Station.{Station, has_dd, capacity_of_drive}
use drive_eraser.Sampled.ZoneRead.{
  Stream, ZoneResult, zone_read, zone_failed, zone_raised, run_cancellable_zone_read,
}

-- `_load_verification_policy`, where it tells the zones
pub record ZonePolicy : Type 0 where
  pub total_bytes_gb : ℕ
  pub zone_count : ℕ
  pub block_size_mb : ℕ
  pub small_drive_threshold_gb : ℕ

-- the values that it falls back to
abbrev pub default_policy : ZonePolicy
default_policy = record {
  total_bytes_gb = 2;
  zone_count = 5;
  block_size_mb = 16;
  small_drive_threshold_gb = 2;
}

unfoldable pub block_size_of : ZonePolicy → ℕ
block_size_of p = p.block_size_mb * 1024 * 1024

pub record Zone : Type 0 where
  pub offset : ℕ
  pub size : ℕ

-- `zone_size`, in whole blocks and at least one
unfoldable pub aligned_size : (total_bytes zone_count block : ℕ) → ℕ
aligned_size total_bytes zone_count block =
    let size = total_bytes / zone_count / block * block in if size == 0 then block else size

-- `max(0, (center - zone_size // 2) // block_size * block_size)`, with the center as it is given
unfoldable pub centered : (center size block : ℕ) → ℕ
centered center size block = (center - size / 2) / block * block

unfoldable pub five_zones : (capacity size block : ℕ) → List Zone
unfolding centered
five_zones capacity size block =
    record { offset = 0; size = size }
    ∷ record { offset = centered (capacity / 4) size block; size = size }
    ∷ record { offset = centered (capacity / 2) size block; size = size }
    ∷ record { offset = centered (3 * capacity / 4) size block; size = size }
    ∷ record { offset = (capacity - size) / block * block; size = size }
    ∷ []

unfoldable pub zones_of : ZonePolicy → ℕ → List Zone
zones_of p capacity =
    if leb capacity (p.small_drive_threshold_gb * 1024 * 1024 * 1024)
    then record { offset = 0; size = capacity } ∷ []
    else five_zones capacity
        (aligned_size (p.total_bytes_gb * 1024 * 1024 * 1024) p.zone_count (block_size_of p))
        (block_size_of p)

-- The part of a zone that lies on the drive.
unfoldable pub clamp : ℕ → Zone → Zone
clamp capacity z =
    let offset = min z.offset capacity in
    record { offset = offset; size = min z.size (capacity - offset) }

-- What the function finds in the round of the loop of that number: whether the event is set, and how the
-- stream of the zone fares.
pub record Rounds : Type 0 where
  pub is_cancelled : ℕ → Bool
  pub stream : ℕ → Zone → Stream

-- The keys of the answer; a count that is left out is 0 to who reads it.
pub record Detection : Type 0 where
  pub ok : Bool
  pub result : String
  pub is_zeroed : Option Bool
  pub chunks_checked : ℕ
  pub bytes_checked : ℕ
  pub failed_at_chunk : Option ℕ
  pub error : Option String

abbrev pub failed_with : String → Detection
failed_with code = record {
  ok = false;
  result = "failed";
  is_zeroed = some false;
  chunks_checked = 0;
  bytes_checked = 0;
  failed_at_chunk = none;
  error = some code;
}

abbrev pub failed_at : (round chunks bytes : ℕ) → String → Detection
failed_at round chunks bytes code = record (failed_with code) {
  chunks_checked = chunks;
  bytes_checked = bytes;
  failed_at_chunk = some round;
}

-- What the loop answers where the zone could not be read.
unfoldable pub on_zone_error : (round chunks bytes : ℕ) → String → Detection
on_zone_error round chunks bytes code =
    if str_eq code "cancelled"
    then record (failed_at round chunks bytes "cancelled") { result = "cancelled" }
    else if str_eq code "timeout"
    then record (failed_at round chunks bytes "timeout") {
      ok = true;
      result = "inconclusive";
      is_zeroed = none;
    }
    else failed_at round chunks bytes code

abbrev pub data_present : (round chunks bytes : ℕ) → Detection
data_present round chunks bytes = record {
  ok = true;
  result = "data_present";
  is_zeroed = some false;
  chunks_checked = chunks;
  bytes_checked = bytes;
  failed_at_chunk = some round;
  error = none;
}

abbrev pub zeroed : (chunks bytes : ℕ) → Detection
zeroed chunks bytes = record {
  ok = true;
  result = "zeroed";
  is_zeroed = some true;
  chunks_checked = chunks;
  bytes_checked = bytes;
  failed_at_chunk = none;
  error = none;
}

unfoldable pub check_zones :
    Rounds → (capacity block round chunks bytes : ℕ) → List Zone → Detection
check_zones w capacity block round chunks bytes [] = zeroed chunks bytes
check_zones w capacity block round chunks bytes (z ∷ zs) = elim (w.is_cancelled round) [
  | true ↦ record (failed_at round chunks bytes "cancelled") { result = "cancelled" }
  | false ↦ elim ((clamp capacity z).size == 0) [
    | true ↦ check_zones w capacity block (round + 1) chunks bytes zs
    | false ↦ elim (run_cancellable_zone_read block (w.stream round (clamp capacity z))) [
      | zone_failed e ↦ on_zone_error round chunks bytes e
      | zone_raised message ↦ record (failed_with "unexpected_error") {
        chunks_checked = chunks;
        bytes_checked = bytes;
      }
      | zone_read found_nonzero n k ↦ elim found_nonzero [
        | true ↦ data_present round (chunks + k) (bytes + n)
        | false ↦ check_zones w capacity block (round + 1) (chunks + k) (bytes + n) zs
      ]
    ]
  ]
]

unfoldable pub check_capacity : Rounds → ZonePolicy → Result ℕ → Detection
check_capacity w p (error code details) = failed_with code
check_capacity w p (ok capacity) =
    if capacity == 0
    then failed_with "invalid_capacity"
    else check_zones w capacity (block_size_of p) 0 0 0 (zones_of p capacity)

unfoldable pub check_drive_already_zeroed : Station → Rounds → ZonePolicy → String → Detection
check_drive_already_zeroed s w p device =
    if not (validate_device_path (some device))
    then failed_with "invalid_device_path"
    else if not (has_dd s)
    then failed_with "dd_not_available_for_zero_check"
    else if s.interrupted 0
    then failed_with "verification_interrupted"
    else check_capacity w p (capacity_of_drive s)
