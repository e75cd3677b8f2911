-- ===== src/Device.antt =====
-- backend/disk_utils.py: what the rest of the backend asks of a device path, of the external
-- commands and of a drive's write counter.
pub mod Path
pub mod Json
pub mod Tolerance
use drive_eraser.Prelude.{
  ℕ, ◌-◌, String, Bool, true, false, ◌||◌, Option, none, some, List, ltb, leb, str_eq, lower,
  contains, or_else, if◌then◌else◌,
}
unfoldable pub use Path.{validate_device_path}

-- What `subprocess.run` brings back of a device tool, its texts stripped, as
-- `run_verification_command` of backend/verification.py hands it on.
pub record CommandResult : Type 0 where
  pub ok : Bool
  pub stdout : String
  pub stderr : String
  pub return_code : Option ℕ
  pub output_bytes : List ℕ

-- The station's tools: the path that `get_command_path` finds, and the answer of a command. The
-- number tells the attempts of a repeated command apart.
pub record Tools : Type 0 where
  pub path_of : String → Option String
  pub run : ℕ → List String → CommandResult

abbrev nvme_write_tolerance : ℕ
nvme_write_tolerance = 4

abbrev sata_write_tolerance : ℕ
sata_write_tolerance = 4096

abbrev seagate_cache_tolerance : ℕ
seagate_cache_tolerance = 4

-- The largest growth of the counter that is still put down to the station itself.
unfoldable pub tolerance_of : String → Option String → ℕ
tolerance_of iface source =
    if str_eq (or_else source "") "seagate_cache_0x37"
    then seagate_cache_tolerance
    else if contains "nvme" iface
    then nvme_write_tolerance
    else sata_write_tolerance

-- `write_counter_source in ("disabled", "gigabytes_processed")`
unfoldable pub untracked : Option String → Bool
untracked none = false
untracked (some source) = str_eq source "disabled" || str_eq source "gigabytes_processed"

unfoldable within_tolerance : String → Option String → Option ℕ → Option ℕ → Bool
within_tolerance iface source none stored = true
within_tolerance iface source (some current) none = true
within_tolerance iface source (some current) (some stored) =
    if ltb current stored then false else leb (current - stored) (tolerance_of iface source)

unfoldable pub check_write_tolerance : Option String → Option ℕ → Option ℕ → Option String → Bool
unfolding within_tolerance
check_write_tolerance interface_type current stored source =
    if untracked source
    then true
    else within_tolerance (lower (or_else interface_type "unknown")) source current stored
