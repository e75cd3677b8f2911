-- ===== src/Verification/Report.antt =====
-- What the checks of backend/verification.py report of an erased drive.
use drive_eraser.Prelude.{ℕ, String, Bool, true, false, Option, none, some}

-- The keys of `details` that the code behind reads again, or by which a verdict is explained.
-- Raw tool output, sample lists and the progress percentage are left out.
pub record Details : Type 0 where
  pub method : String
  pub mode : Option String
  pub note : Option String
  pub sprog : Option ℕ
  pub sstat : Option ℕ
  pub secondary_status : Option String
  pub verification_level : Option String
  pub smart_baseline_for_marker : Option ℕ
  pub write_counter_source : Option String

pub record Report : Type 0 where
  pub ok : Bool
  pub status : String
  pub error : Option String
  pub details : Details

abbrev pub details_of : String → Details
details_of method = record {
  method = method;
  mode = none;
  note = none;
  sprog = none;
  sstat = none;
  secondary_status = none;
  verification_level = none;
  smart_baseline_for_marker = none;
  write_counter_source = none;
}

-- `{"ok": False, "status": status, "error": error, "details": {"method": method, …}}`
abbrev pub failure : String → String → String → Report
failure method status error = record {
  ok = false;
  status = status;
  error = some error;
  details = details_of method;
}

-- `{"ok": True, "status": "verified", "error": None, "details": details}`
abbrev pub verified : Details → Report
verified details = record { ok = true; status = "verified"; error = none; details = details }
