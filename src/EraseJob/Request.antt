-- ===== src/EraseJob/Request.antt =====
-- From an accepted request to a job: `create_erase_job` and `check_health_gate_sync` of
-- backend/job_validation.py.
pub mod Cleared
use drive_eraser.Prelude.{
  String, Bool, true, false, not, ◌&&◌, Option, none, some, List, [], if◌then◌else◌,
}
use drive_eraser.Config.{Policy, Drive}
use drive_eraser.JobValidation.{Validated}
use drive_eraser.EraseJob.State.{queued, Gate, JobRequest, Job}
use drive_eraser.EraseJob.Stages.{override_allowed}

-- `create_erase_job`; the override and the marker are options that its callers add to the request.
unfoldable pub create_erase_job : Validated → Job
create_erase_job v = record {
  status = queued;
  finished = false;
  error = none;
  request = record {
    bay = v.bay;
    device = v.device;
    interface_type = v.drive.interface_type;
    method = v.method;
    health_gate_override = false;
    disable_marker = false;
    write_counter_source = none;
  };
  health_gate_result = none;
  override_accepted = false;
  override_allowed = none;
  has_before = false;
  result = none;
  warnings = [];
  verification = none;
  marker = none;
  certificate = none;
}

-- What `check_health_gate_sync` returns.
pub record GateCheck : Type 0 where
  pub blocked : Bool
  pub override_accepted : Bool
  pub block_reason : Option String
  pub override_available : Option Bool
  pub health_gate_result : Gate

unfoldable pub check_health_gate_sync :
    (String → Option String → Gate) → String → Option String → Policy → Bool → GateCheck
check_health_gate_sync pre_wipe_health_gate device interface_type policy health_gate_override =
    let gate = pre_wipe_health_gate device interface_type in
    if not gate.blocked
    then record {
      blocked = false;
      override_accepted = false;
      block_reason = none;
      override_available = none;
      health_gate_result = gate;
    }
    else if health_gate_override && override_allowed policy
    then record {
      blocked = false;
      override_accepted = true;
      block_reason = gate.block_reason;
      override_available = none;
      health_gate_result = gate;
    }
    else record {
      blocked = true;
      override_accepted = false;
      block_reason = gate.block_reason;
      override_available = some (override_allowed policy);
      health_gate_result = gate;
    }
