-- ===== src/Verification/Overwrite.antt =====
-- `verify_overwrite` of backend/verification.py: the first and the last megabyte must read as zeros.
-- The capacity is what `_run_blockdev_getsize64` brings back, or its error.
pub mod Zones
use drive_eraser.Prelude.{
  ℕ, ◌-◌, ◌*◌, ◌/◌, min, String, Bool, true, false, not, Option, none, some, List, [], ◌∷◌, leb,
  ◌==◌, any, length, str_eq, if◌then◌else◌,
}
use drive_eraser.Device.{CommandResult, Tools, validate_device_path}
use drive_eraser.Verification.Report.{details_of, Report, failure, verified}

abbrev pub read_size : ℕ
read_size = 1024 * 1024

abbrev pub sector_align : ℕ
sector_align = 512

pub record Zone : Type 0 where
  pub offset : ℕ
  pub size : ℕ

-- The regions that are read, by the capacity of the drive.
unfoldable pub zones_of : ℕ → List Zone
zones_of capacity =
    if leb capacity (read_size * 2)
    then record { offset = 0; size = capacity } ∷ []
    else let last_offset = (capacity - read_size) / sector_align * sector_align in
      record { offset = 0; size = read_size }
      ∷ record { offset = last_offset; size = min read_size (capacity - last_offset) }
      ∷ []

-- The result of reading one zone with dd.
abbrev ReadZone : Type 0
ReadZone = Zone → CommandResult

-- The loop over the zones: the error of the first zone that fails, if one does.
unfoldable pub check_zones : ReadZone → List Zone → Option (String × String)
check_zones read [] = none
check_zones read (z ∷ zs) =
    let rest = check_zones read zs in
    let r = read z in
    if not r.ok
    then some ("verification_error", "overwrite_sample_read_failed")
    else if length r.output_bytes == 0
    then some ("verification_error", "overwrite_sample_empty")
    else if any (λ b. not (b == 0)) r.output_bytes
    then some ("verification_failed", "overwrite_nonzero_sample")
    else rest

unfoldable pub zones_verdict : Option (String × String) → Report
zones_verdict none =
    verified (record (details_of "overwrite") { mode = some "first_last_1mb_zero_check" })
zones_verdict (some (status, error)) = failure "overwrite" status error

pub data Capacity : Type 0 where
  bytes : ℕ → Capacity
  unreadable : (error : String) → Capacity

unfoldable pub by_capacity : ReadZone → Capacity → Report
by_capacity read (unreadable error) = failure "overwrite" "verification_error" error
by_capacity read (bytes n) =
    if n == 0
    then failure "overwrite" "verification_error" "invalid_capacity"
    else zones_verdict (check_zones read (zones_of n))

unfoldable pub with_dd : ReadZone → Capacity → Option String → Report
with_dd read capacity none =
    failure "overwrite" "verification_error" "dd_not_available_for_verification"
with_dd read capacity (some dd_cmd) =
    if str_eq dd_cmd ""
    then failure "overwrite" "verification_error" "dd_not_available_for_verification"
    else by_capacity read capacity

unfoldable pub verify_overwrite : Tools → ReadZone → Capacity → String → Report
verify_overwrite tools read capacity device =
    if validate_device_path (some device)
    then with_dd read capacity (tools.path_of "dd")
    else failure "overwrite" "verification_error" "invalid_device_path"
