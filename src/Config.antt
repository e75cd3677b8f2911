-- ===== src/Config.antt =====
-- The drives and the policy (config/policy.json) as the checks of backend/job_validation.py read them.
use drive_eraser.Prelude.{ℕ, String, Bool, Option, List, [], ◌∷◌, str_eq, if◌then◌else◌}

pub record Drive : Type 0 where
  pub bay : Option String
  pub locked : Bool
  pub role : Option String
  pub present : Bool
  pub sas_secondary_path : Bool
  pub device : Option String
  pub configured_by_path : Option String
  pub resolved_by_path : Option String
  pub configured_by_path_nvme : Option String
  pub resolved_by_path_nvme : Option String
  pub interface_type : Option String
  pub supported_methods : List String
  pub serial : Option String
  pub model : Option String
  pub smart_capacity_bytes : Option ℕ

abbrev pub Priorities : Type 0
Priorities = List (String × List String)

pub record Policy : Type 0 where
  pub method_priority : Priorities
  pub strict_audit_mode : Option Bool
  pub allow_method_override : Option Bool
  pub prewipe_health_gate_strict_mode : Option Bool

-- `method_priority.get(interface_type, [])`
unfoldable pub priority_of : String → Priorities → List String
priority_of iface [] = []
priority_of iface ((key, methods) ∷ rest) =
    if str_eq key iface then methods else priority_of iface rest
