-- ===== src/Verification/Nvme/Verdict.antt =====
-- When the NVMe check attests an erase.
use drive_eraser.Prelude.{
  ℕ, ◌%◌, ◌≤◌, String, ◌≡◌, refl, ◌≢◌, ◌↔◌, Bool, true, false, Option, none, some, [], ◌∷◌, arith,
  eq_iff, lower, contains, ◌⊎◌, inl, inr,
}
use drive_eraser.Device.{CommandResult, Tools, validate_device_path}
use drive_eraser.Verification.Nvme.{
  extract_command_output, log_verdict, read_log, query_log, on_controller, with_nvme,
  verify_nvme_sanitize,
}
use drive_eraser.Verification.Nvme.Field.{parse_numeric_field, namespace_controller}

-- The progress field is absent, or says that nothing is left to do.
abbrev pub NotRunning : Option ℕ → Type 0
NotRunning none = Unit
NotRunning (some n) = 65535 ≤ n

-- What the two fields of the log have to be for an erase to be attested: the status is not "never
-- sanitized", "in progress" or "failed", and it is 0x101, or else the progress says so.
abbrev pub Attests : Option ℕ → Option ℕ → Type 0
Attests sprog none = NotRunning sprog × (sprog ≢ some 65535)
Attests sprog (some s) = (s ≢ 0) × (s % 8 ≢ 2) × (s % 8 ≢ 3) × ((s ≡ 0x101) ⊎ NotRunning sprog)

log_verdict-Attests :
    (method : String) (says_failed : Bool) (sprog sstat : Option ℕ)
    → (log_verdict method says_failed sprog sstat).ok ≡ true
    → (says_failed ≡ false) × Attests sprog sstat
unfolding log_verdict
log_verdict-Attests method f none none h = ground arith
log_verdict-Attests method f (some p) none h = ground arith
log_verdict-Attests method f none (some s) h = ground arith
log_verdict-Attests method f (some p) (some s) h = ground arith

Attests-log_verdict :
    (method : String) (sprog sstat : Option ℕ)
    → Attests sprog sstat
    → (log_verdict method false sprog sstat).ok ≡ true
unfolding log_verdict
Attests-log_verdict method none none h = ground arith
Attests-log_verdict method (some p) none h = ground arith
Attests-log_verdict method none (some s) h = ground arith
Attests-log_verdict method (some p) (some s) h = ground arith

-- The log attests an erase exactly when it does not say "failed" and its fields are as `Attests` says.
pub log_verdict_iff :
    (method : String) (says_failed : Bool) (sprog sstat : Option ℕ)
    → ((log_verdict method says_failed sprog sstat).ok ≡ true)
      ↔ ((says_failed ≡ false) × Attests sprog sstat)
log_verdict_iff method f sprog sstat = (
  log_verdict-Attests method f sprog sstat,
  λ (quiet, fields). rw quiet (Attests-log_verdict method sprog sstat fields),
)

note-ne :
    (method : String) (says_failed : Bool) (sprog sstat : Option ℕ)
    → (log_verdict method says_failed sprog sstat).details.note ≢ some "completed_no_deallocate"
unfolding log_verdict
note-ne method f none none e = ground (arith, eq_iff "defensive_success" "completed_no_deallocate")
note-ne method f (some p) none e =
    ground (arith, eq_iff "defensive_success" "completed_no_deallocate")
note-ne method f sprog (some s) e = ground (
  arith,
  eq_iff "defensive_success" "completed_no_deallocate",
  eq_iff "completed_with_global_data_erased" "completed_no_deallocate",
)

-- No log is ever reported as `completed_no_deallocate`: a status of 0x102 has the low bits of a
-- sanitize that is in progress, and in a log that does not say "failed" it is reported as that,
-- whatever the progress field says.
pub no_deallocate_unreported :
    (method : String) (says_failed : Bool) (sprog sstat : Option ℕ)
    → ((log_verdict method says_failed sprog sstat).details.note ≢ some "completed_no_deallocate")
      × ((log_verdict method false sprog (some 0x102)).error
          ≡ some "nvme_sanitize_still_in_progress")
no_deallocate_unreported method f sprog sstat =
    (note-ne method f sprog sstat, unfold log_verdict in refl)

-- What a positive answer of the whole check rests on.
pub record Attested (tools : Tools) (device method : String) : Type 0 where
  pub valid : validate_device_path (some device) ≡ true
  pub nvme_cmd : String
  pub found : tools.path_of "nvme" ≡ some nvme_cmd
  pub target : String
  pub addressed :
      (target ≡ device) × (namespace_controller device ≡ none)
      ⊎ (namespace_controller device ≡ some target) × (validate_device_path (some target) ≡ true)
  pub answered : (tools.run 0 (nvme_cmd ∷ "sanitize-log" ∷ target ∷ [])).ok ≡ true
  pub log_says :
      let output = extract_command_output (tools.run 0 (nvme_cmd ∷ "sanitize-log" ∷ target ∷ [])) in
      (contains "failed" (lower output) ≡ false)
      × Attests (parse_numeric_field "sprog" output) (parse_numeric_field "sstat" output)

read_log-Attests :
    (method : String) (r : CommandResult)
    → (read_log method r).ok ≡ true
    → (r.ok ≡ true)
      × (contains "failed" (lower (extract_command_output r)) ≡ false)
      × Attests
          (parse_numeric_field "sprog" (extract_command_output r))
          (parse_numeric_field "sstat" (extract_command_output r))
unfolding read_log
read_log-Attests method r h =
    let (answered, verdict) = said in
    let (quiet, fields) = log_verdict-Attests method _ _ _ verdict in (answered, quiet, fields)
  where
    said :
        (r.ok ≡ true)
        × ((log_verdict method
              (contains "failed" (lower (extract_command_output r)))
              (parse_numeric_field "sprog" (extract_command_output r))
              (parse_numeric_field "sstat" (extract_command_output r))).ok
            ≡ true)
    said = ground arith

module _ (tools : Tools) (device method : String) where
  -- a valid device, whose tool was found
  module _ (nvme_cmd : String) (valid : validate_device_path (some device) ≡ true)
      (found : tools.path_of "nvme" ≡ some nvme_cmd) where
    query_log-Attested :
        (target : String)
        → (target ≡ device) × (namespace_controller device ≡ none)
          ⊎ (namespace_controller device ≡ some target)
            × (validate_device_path (some target) ≡ true)
        → (query_log tools nvme_cmd target method).ok ≡ true
        → Attested tools device method
    unfolding query_log
    query_log-Attested target addressed h =
        let (answered, quiet, fields) = read_log-Attests method _ h in
        record {
          valid = valid;
          nvme_cmd = nvme_cmd;
          found = found;
          target = target;
          addressed = addressed;
          answered = answered;
          log_says = (quiet, fields);
        }

    on_controller-Attested :
        (o : Option String)
        → namespace_controller device ≡ o
        → (on_controller tools nvme_cmd device method o).ok ≡ true
        → Attested tools device method
    unfolding on_controller
    on_controller-Attested none e h = query_log-Attested device (inl (refl, e)) h
    on_controller-Attested (some target) e h =
        let (valid_target, positive) = split in
        query_log-Attested target (inr (e, valid_target)) positive
      where
        split :
            (validate_device_path (some target) ≡ true)
            × ((query_log tools nvme_cmd target method).ok ≡ true)
        split = ground arith

  with_nvme-Attested :
      (o : Option String)
      → validate_device_path (some device) ≡ true
      → tools.path_of "nvme" ≡ o
      → (with_nvme tools device method o).ok ≡ true
      → Attested tools device method
  unfolding with_nvme
  with_nvme-Attested none valid e h = cc h
  with_nvme-Attested (some nvme_cmd) valid e h =
      on_controller-Attested nvme_cmd valid e (namespace_controller device) refl (ground (arith, h))

  verify_nvme_sanitize_split :
      (verify_nvme_sanitize tools device method).ok ≡ true
      → (validate_device_path (some device) ≡ true)
        × ((with_nvme tools device method (tools.path_of "nvme")).ok ≡ true)
  unfolding verify_nvme_sanitize
  verify_nvme_sanitize_split h = ground arith

-- A positive answer of `verify_nvme_sanitize` means: the device path is valid, the nvme tool is there,
-- the sanitize log was read without an error from the device or, for a namespace path, from its
-- controller, whose path is valid too, and that log does not say "failed" and attests the erase.
pub verify_nvme_sanitize-Attested :
    (tools : Tools) (device method : String)
    → (verify_nvme_sanitize tools device method).ok ≡ true
    → Attested tools device method
verify_nvme_sanitize-Attested tools device method h =
    let (valid, positive) = verify_nvme_sanitize_split tools device method h in
    with_nvme-Attested tools device method (tools.path_of "nvme") valid refl positive
