-- ===== src/Samples.antt =====
-- Small inputs, and what the theorems say of them.
use drive_eraser.Prelude.{
  ℕ, ◌≡◌, ◌↔◌, ◌≤◌, ◌<◌, length, get_elem?, refl, true, false, none, some, List, [], ◌∷◌, String,
  lower, strip, or_else, member, basename, codes,
}
use drive_eraser.Config.{Drive, Policy, priority_of}
use drive_eraser.JobValidation.{
  accepted, Host, Request, Validated, validate_single_bay, build_recommended_method, select_drive,
  find_drive, at_bay, audit_check, is_placeholder, resolve_device, is_os_device, path_checks,
  names_os_path, choose_method, override_of, require_method, checked_override, same_node,
  first_supported, or_fallback, fallback_method,
}
use drive_eraser.JobValidation.Sound.{IsCleared, validate_single_bay-IsCleared}
use drive_eraser.Device.{validate_device_path}
use drive_eraser.Device.Path.Grammar.{validate_device_path_iff, IsDevicePath, NoDots}
use drive_eraser.Device.Json.{
  find_json_bounds, bottom, open_braces, stack_step, read_byte, find_close,
}
use drive_eraser.Device.Json.Bounds.{find_json_bounds-encloses}
use drive_eraser.ZeroCheck.Threads.{initial}
use drive_eraser.EraseJob.Finish.{run_erase_job}
use drive_eraser.EraseJob.Request.{create_erase_job}
use drive_eraser.EraseJob.Request.Cleared.{Erases, accepted_request-Erases}
use drive_eraser.EraseJob.Samples.{station}

abbrev drive : Drive
drive = record {
  bay = some " Bay-1";
  locked = false;
  role = some "data";
  present = true;
  sas_secondary_path = false;
  device = some "/dev/sdb";
  configured_by_path = some "/dev/disk/by-path/pci-2";
  resolved_by_path = none;
  configured_by_path_nvme = none;
  resolved_by_path_nvme = none;
  interface_type = some "SATA";
  supported_methods = "overwrite" ∷ "secure_erase" ∷ [];
  serial = some "S1";
  model = none;
  smart_capacity_bytes = some 1000;
}

abbrev policy : Policy
policy = record {
  method_priority = ("sata", "crypto" ∷ "secure_erase" ∷ []) ∷ [];
  strict_audit_mode = some true;
  allow_method_override = some false;
  prewipe_health_gate_strict_mode = none;
}

abbrev host : Host
host = record {
  os_by_path = some (some "/dev/sda", some "/dev/disk/by-path/pci-1");
  realpath = λ path. path;
}

abbrev request : Request
request = record {
  technician = some "Kim";
  ticket_number = some "T-1";
  bay = "bay-1";
  method_override = none;
}

abbrev validated : Validated
validated = record {
  technician = some "Kim";
  ticket_number = some "T-1";
  bay = "bay-1";
  device = "/dev/sdb";
  method = "secure_erase";
  recommended_method = some "secure_erase";
  supported_methods = "overwrite" ∷ "secure_erase" ∷ [];
  drive = drive;
}

validation : Unit {0}
unfolding validate_single_bay build_recommended_method select_drive find_drive at_bay lower strip
    or_else member audit_check is_placeholder resolve_device is_os_device path_checks names_os_path
    basename choose_method override_of require_method checked_override same_node first_supported
    or_fallback fallback_method priority_of
validation = tt

request_accepted : validate_single_bay host request (drive ∷ []) policy ≡ accepted validated
unfolding validation
request_accepted = refl

validate_single_bay-IsCleared_example : IsCleared host request (drive ∷ []) policy validated
validate_single_bay-IsCleared_example =
    validate_single_bay-IsCleared host request (drive ∷ []) policy request_accepted

recommended : build_recommended_method drive policy ≡ some "secure_erase"
unfolding validation
recommended = refl

abbrev node : String
node = "/dev/sda1"

validate_device_path_iff_example :
    (validate_device_path (some node) ≡ true) ↔ (IsDevicePath (codes node) × NoDots (codes node))
validate_device_path_iff_example = validate_device_path_iff node

-- {"a":"}"} behind two zero bytes
abbrev block : List ℕ
block = 0 ∷ 0 ∷ b'{' ∷ b'"' ∷ b'a' ∷ b'"' ∷ b':' ∷ b'"' ∷ b'}' ∷ b'"' ∷ b'}' ∷ 0 ∷ []

bounds : find_json_bounds block 4 ≡ some (2, 10)
unfolding find_json_bounds bottom open_braces stack_step read_byte find_close
bounds = refl

find_json_bounds-encloses_example :
    (2 ≤ 4)
    × (4 < 10)
    × (10 < length block)
    × (get_elem? block 2 ≡ some b'{')
    × (get_elem? block 10 ≡ some b'}')
find_json_bounds-encloses_example = find_json_bounds-encloses block 4 2 10 bounds

accepted_request-Erases_example :
    IsCleared host request (drive ∷ []) policy validated
    × Erases "/dev/sdb"
        (run_erase_job (station false) 57602 1802 (record {
          job = some (create_erase_job validated);
          spawned = [];
          zero_checks = initial 2;
          waiting = false;
        })).spawned
accepted_request-Erases_example =
    accepted_request-Erases host request (drive ∷ []) policy (station false) (initial 2) 57602 1802
      request_accepted
