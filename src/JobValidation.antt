-- ===== src/JobValidation.antt =====
-- backend/job_validation.py: the checks that an erase request passes before a job is created, and
-- the job that is created. A drive, a policy and a request are dictionaries in the source; here
-- each is a record of the keys that the code reads, with `none` for a key that may be missing.
-- A refusal is the pair of the error message and the HTTP status.

pub mod Sound
use drive_eraser.Prelude.{
  ℕ, String, Bool, true, false, not, ◌&&◌, ◌||◌, Option, none, some, List, [], ◌∷◌, str_eq, lower,
  strip, basename, member, truthy, or_else, get_or, if◌then◌else◌,
}
use drive_eraser.Config.{Policy, Drive, priority_of}
use Prim.Native.String.{◌++◌}

pub data Outcome {ℓ} (A : Type ℓ) : Type ℓ where
  accepted : A → Outcome A
  rejected : (message : String) (status : ℕ) → Outcome A

infixl 5 ◌>>=◌ ◌>>◌
abbrev pub ◌>>=◌ {ℓ κ} : {A : Type ℓ} {B : Type κ} → Outcome A → (A → Outcome B) → Outcome B
accepted a >>= f = f a
rejected message status >>= f = rejected message status

abbrev pub ◌>>◌ {ℓ} : {B : Type ℓ} → Outcome (Unit {0}) → Outcome B → Outcome B
m >> k = m >>= λ _. k

-- `if test: return None, {"error": message}, status`
abbrev pub reject_if : Bool → String → ℕ → Outcome (Unit {0})
reject_if true message status = rejected message status
reject_if false message status = accepted tt

-- What the host tells: the device node and by-path name of the disk that it runs from, as
-- `get_os_by_path` returns them, and `os.path.realpath`.
pub record Host : Type 0 where
  pub os_by_path : Option (Option String × Option String)
  pub realpath : String → String

-- `next(m for m in prioritized if m in supported_methods)`
unfoldable pub first_supported : List String → List String → Option String
first_supported [] supported = none
first_supported (m ∷ ms) supported =
    if member m supported then some m else first_supported ms supported

unfoldable pub first_of_list : List String → Option String
first_of_list [] = none
first_of_list (m ∷ ms) = some m

unfoldable pub fallback_method : List String → Option String
unfolding first_of_list
fallback_method supported =
    if member "overwrite" supported then some "overwrite" else first_of_list supported

unfoldable pub or_fallback : Option String → List String → Option String
or_fallback (some m) supported = some m
or_fallback none supported = fallback_method supported

unfoldable pub build_recommended_method : Drive → Policy → Option String
unfolding or_fallback fallback_method first_supported
build_recommended_method drive policy =
    or_fallback
      (first_supported
        (priority_of (lower (or_else drive.interface_type "unknown")) policy.method_priority)
        drive.supported_methods)
      drive.supported_methods

-- `str(drive.get("bay") or "").strip().lower() == bay`
unfoldable pub at_bay : String → Drive → Bool
at_bay bay drive = str_eq (lower (strip (or_else drive.bay ""))) bay

unfoldable pub find_drive : String → List Drive → Option Drive
find_drive bay [] = none
find_drive bay (d ∷ ds) = if at_bay bay d then some d else find_drive bay ds

unfoldable pub select_drive : String → Option Drive → Outcome Drive
select_drive bay none = rejected ("bay not found: " ++ bay) 404
select_drive bay (some d) = accepted d

-- `not value or value.strip() == "" or value == placeholder`
unfoldable pub is_placeholder : String → Option String → Bool
is_placeholder placeholder none = true
is_placeholder placeholder (some s) = str_eq s "" || str_eq (strip s) "" || str_eq s placeholder

unfoldable pub audit_check : Bool → Option String → Option String → Outcome (Unit {0})
audit_check false technician ticket = accepted tt
audit_check true technician ticket = do
  reject_if (is_placeholder "System Operator" technician)
      "Strict audit mode requires a valid technician name (cannot be empty or 'System Operator')"
      400
  reject_if (is_placeholder "INTERNAL" ticket)
      "Strict audit mode requires a valid ticket number (cannot be empty or 'INTERNAL')" 400

unfoldable pub resolve_device : String → Option String → Outcome String
resolve_device bay none = rejected ("drive device could not be resolved for bay: " ++ bay) 409
resolve_device bay (some device) =
    if str_eq device ""
    then rejected ("drive device could not be resolved for bay: " ++ bay) 409
    else accepted device

abbrev pub os_dev_node : Host → Option String
os_dev_node host = elim host.os_by_path [ none ↦ none | some (dev, path) ↦ dev ]

abbrev pub os_path : Host → Option String
os_path host = elim host.os_by_path [ none ↦ none | some (dev, path) ↦ path ]

-- the device is the node that the host runs from
unfoldable pub same_node : (String → String) → String → Option String → Bool
same_node realpath device none = false
same_node realpath device (some node) =
    not (str_eq node "") && str_eq (realpath device) (realpath node)

unfoldable pub is_os_device : Host → String → Bool
unfolding same_node
is_os_device host device = same_node host.realpath device (os_dev_node host)

-- one round of the loop over the drive's four by-path names
unfoldable pub names_os_path : Option String → Option String → Bool
names_os_path none os = false
names_os_path (some path) none = false
names_os_path (some path) (some os) =
    not (str_eq path "")
    && not (str_eq os "")
    && (str_eq path os || str_eq (basename path) (basename os))

unfoldable pub path_checks : Option String → List (Option String) → Outcome (Unit {0})
path_checks os [] = accepted tt
path_checks os (path ∷ paths) =
    if names_os_path path os
    then rejected
        ("Device path " ++ get_or path "" ++ " is the active host OS drive and cannot be erased!")
        403
    else path_checks os paths

abbrev pub by_path_names : Drive → List (Option String)
by_path_names drive =
    drive.configured_by_path ∷ drive.resolved_by_path ∷ drive.configured_by_path_nvme
    ∷ drive.resolved_by_path_nvme ∷ []

-- `str(method_override).strip().lower() if method_override else None`
unfoldable pub override_of : Option String → Option String
override_of none = none
override_of (some m) = if str_eq m "" then none else some (lower (strip m))

-- the branch `if chosen_method:`
unfoldable pub checked_override :
    String → Policy → Drive → Option String → String → Outcome (Option String)
checked_override bay policy drive recommended chosen = do
  reject_if (not (member chosen drive.supported_methods))
      ("method not supported by drive in " ++ bay ++ ": " ++ chosen) 400
  reject_if
      (not (get_or policy.allow_method_override true)
        && truthy recommended
        && not (str_eq chosen (get_or recommended "")))
      "method override is disabled by policy" 403
  accepted (some chosen)

unfoldable pub choose_method :
    String → Policy → Drive → Option String → Option String → Outcome (Option String)
unfolding checked_override
choose_method bay policy drive recommended none = accepted recommended
choose_method bay policy drive recommended (some chosen) =
    if str_eq chosen ""
    then accepted recommended
    else checked_override bay policy drive recommended chosen

unfoldable pub require_method : String → Option String → Outcome String
require_method bay none = rejected ("no supported erase method available for bay: " ++ bay) 409
require_method bay (some m) =
    if str_eq m ""
    then rejected ("no supported erase method available for bay: " ++ bay) 409
    else accepted m

pub record Validated : Type 0 where
  pub technician : Option String
  pub ticket_number : Option String
  pub bay : String
  pub device : String
  pub method : String
  pub recommended_method : Option String
  pub supported_methods : List String
  pub drive : Drive

pub record Request : Type 0 where
  pub technician : Option String
  pub ticket_number : Option String
  pub bay : String
  pub method_override : Option String

unfoldable pub validate_single_bay : Host → Request → List Drive → Policy → Outcome Validated
validate_single_bay host request drives policy = do
  let bay = request.bay
  drive ← select_drive bay (find_drive bay drives)
  reject_if drive.locked ("bay is protected and cannot be erased: " ++ bay) 403
  reject_if (member (get_or drive.role "") ("os" ∷ "reserved" ∷ []))
      ("bay role is not erasable: " ++ bay) 403
  reject_if (not drive.present) ("no drive present in bay: " ++ bay) 409
  reject_if drive.sas_secondary_path ("Cannot wipe secondary path of dual-port SAS drive: " ++ bay)
      403
  audit_check (get_or policy.strict_audit_mode false) request.technician request.ticket_number
  device ← resolve_device bay drive.device
  reject_if (is_os_device host device)
      ("Device " ++ device ++ " is the active host OS drive and cannot be erased!") 403
  path_checks (os_path host) (by_path_names drive)
  let recommended = build_recommended_method drive policy
  chosen ← choose_method bay policy drive recommended (override_of request.method_override)
  method ← require_method bay chosen
  accepted (record {
    technician = request.technician;
    ticket_number = request.ticket_number;
    bay = bay;
    device = device;
    method = method;
    recommended_method = recommended;
    supported_methods = drive.supported_methods;
    drive = drive;
  })
