-- ===== src/Verification/Samples.antt =====
-- Tool outputs of an erased drive, and what the theorems on the checks say of them.
use drive_eraser.Prelude.{
  ℕ, ◌≡◌, ◌↔◌, ◌≢◌, ◌-◌, ◌%◌, refl, true, false, none, some, List, [], ◌∷◌, String, All, arith,
  lower, strip, or_else, lstrip, rstrip, is_space, is_prefix, drop_chars, contains, member,
}
use drive_eraser.Device.{CommandResult, Tools, validate_device_path}
use drive_eraser.Device.Path.{valid_codes, has_dots, matches, segments, in_segment, is_path_char}
use drive_eraser.Verification.Report.{Report, verified, details_of}
use drive_eraser.Verification.Nvme.{
  log_verdict, verify_nvme_sanitize, with_nvme, on_controller, namespace_controller, query_log,
  read_log, extract_command_output, parse_numeric_field,
}
use drive_eraser.Verification.Nvme.Field.{is_digit}
use drive_eraser.Verification.Nvme.Verdict.{
  Attests, log_verdict_iff, Attested, no_deallocate_unreported, verify_nvme_sanitize-Attested,
}
use drive_eraser.Verification.Sata.{status_verdict, split_lines}
use drive_eraser.Verification.Sata.Verdict.{StateDone, status_verdict_iff}
use drive_eraser.Verification.SataErase.{
  skip_blanks, indented_block, next_block, block_at, indented_section, blank_line, until_gap,
  loose_section, extract_sata_security_section, has_word, line_flag, has_heading, without_section,
  identify_verdict, identify, verify_sata_secure_erase,
}
use drive_eraser.Verification.SataErase.Verdict.{
  Unsecured, identify_verdict_iff, ShownErased, verify_sata_secure_erase-ShownErased,
}
use drive_eraser.Verification.Sas.{block_verdict}
use drive_eraser.Verification.Sas.Verdict.{BlockDone, block_verdict_iff}
use drive_eraser.Verification.Overwrite.{
  Zone, zones_of, read_size, bytes, verify_overwrite, with_dd, by_capacity, zones_verdict,
  check_zones,
}
use drive_eraser.Verification.Overwrite.Zones.{
  Fits, zones_of_large, IsZeroed, verify_overwrite-IsZeroed,
}
use drive_eraser.Verification.Dispatch.{
  Checks, Probe, Modes, verification_for_method, primary, is_crypto_or_block, secondary,
  secondary_mode, with_baseline,
}
use drive_eraser.Verification.Dispatch.Attested.{
  Primary, Secondary, verification_for_method-Attested,
}

program : Unit {0}
unfolding validate_device_path valid_codes has_dots matches segments in_segment is_path_char lower
    strip lstrip rstrip contains member or_else verify_nvme_sanitize with_nvme on_controller
    namespace_controller query_log read_log extract_command_output parse_numeric_field is_digit
    log_verdict verify_overwrite with_dd by_capacity zones_verdict check_zones zones_of
    verification_for_method primary is_crypto_or_block secondary secondary_mode with_baseline
program = tt

identified_program : Unit {0}
unfolding validate_device_path valid_codes has_dots matches segments in_segment is_path_char lower
    strip lstrip rstrip is_space is_prefix drop_chars extract_command_output split_lines skip_blanks
    indented_block next_block block_at indented_section blank_line until_gap loose_section
    extract_sata_security_section has_word line_flag has_heading without_section identify_verdict
    identify verify_sata_secure_erase
identified_program = tt

abbrev answer : String → List ℕ → CommandResult
answer text read = record {
  ok = true;
  stdout = text;
  stderr = "";
  return_code = some 0;
  output_bytes = read;
}

abbrev tools : Tools
tools = record {
  path_of = λ name. some "/usr/sbin/tool";
  run = λ attempt command.
      answer "Sanitize Progress (SPROG) : 65535\nSanitize Status (SSTAT) : 0x101" [];
}

nvme_verified : (verify_nvme_sanitize tools "/dev/nvme0n1" "crypto").ok ≡ true
unfolding program
nvme_verified = refl

verify_nvme_sanitize-Attested_example : Attested tools "/dev/nvme0n1" "crypto"
verify_nvme_sanitize-Attested_example =
    verify_nvme_sanitize-Attested tools "/dev/nvme0n1" "crypto" nvme_verified

log_verdict_iff_example :
    ((log_verdict "block" false (some 65535) (some 0x101)).ok ≡ true)
    ↔ ((false ≡ false) × Attests (some 65535) (some 0x101))
log_verdict_iff_example = log_verdict_iff "block" false (some 65535) (some 0x101)

no_deallocate_unreported_example :
    ((log_verdict "block" false (some 65535) (some 0x102)).details.note
      ≢ some "completed_no_deallocate")
    × ((log_verdict "block" false (some 65535) (some 0x102)).error
        ≡ some "nvme_sanitize_still_in_progress")
no_deallocate_unreported_example = no_deallocate_unreported "block" false (some 65535) (some 0x102)

abbrev sata_status : CommandResult
sata_status = answer "State:    SD0 Sanitize Idle\nLast Sanitize Operation Completed" []

status_verdict_iff_example :
    ((status_verdict "crypto" sata_status).ok ≡ true) ↔ StateDone sata_status
status_verdict_iff_example = status_verdict_iff "crypto" sata_status

abbrev identified : CommandResult
identified =
    answer
      "ATA device\nConfiguration:\n\tLogical\nSecurity: \n\tMaster password\n\t\tsupported\n\tnot\tenabled\nDone"
      []

identify_verdict_iff_example :
    ((identify_verdict "secure_erase" identified).ok ≡ true) ↔ Unsecured identified
identify_verdict_iff_example = identify_verdict_iff "secure_erase" identified

abbrev hdparm : Tools
hdparm = record { path_of = λ name. some "/usr/sbin/hdparm"; run = λ attempt command. identified }

-- Its section as the code reads it
section_read :
    extract_sata_security_section (extract_command_output identified)
    ≡ "\tmaster password\n\t\tsupported\n\tnot\tenabled\n"
unfolding identified_program
section_read = refl

-- An `enabled` line without its `not`
still_enabled :
    (identify_verdict "secure_erase" (answer "Security:\n\tsupported\n\tenabled" [])).error
    ≡ some "sata_security_still_enabled"
unfolding identified_program
still_enabled = refl

secure_erase_verified : (verify_sata_secure_erase hdparm "/dev/sdb" "secure_erase").ok ≡ true
unfolding identified_program
secure_erase_verified = refl

verify_sata_secure_erase-ShownErased_example : ShownErased hdparm "/dev/sdb"
verify_sata_secure_erase-ShownErased_example =
    verify_sata_secure_erase-ShownErased hdparm "/dev/sdb" "secure_erase" secure_erase_verified

abbrev sas_status : CommandResult
sas_status = answer "No sanitize operation in progress" []

block_verdict_iff_example : ((block_verdict "block" sas_status).ok ≡ true) ↔ BlockDone sas_status
block_verdict_iff_example = block_verdict_iff "block" sas_status

zones_of_large_example :
    All (Fits 4194304) (zones_of 4194304)
    × (zones_of 4194304
        ≡ record { offset = 0; size = read_size }
          ∷ record { offset = 4194304 - 4194304 % 512 - read_size; size = read_size }
          ∷ [])
zones_of_large_example = zones_of_large 4194304 (omega arith)

abbrev zeros : Zone → CommandResult
zeros z = answer "" (0 ∷ 0 ∷ [])

overwrite_verified : (verify_overwrite tools zeros (bytes 4194304) "/dev/sdb").ok ≡ true
unfolding program
overwrite_verified = refl

verify_overwrite-IsZeroed_example : IsZeroed tools zeros (bytes 4194304) "/dev/sdb"
verify_overwrite-IsZeroed_example =
    verify_overwrite-IsZeroed tools zeros (bytes 4194304) "/dev/sdb" overwrite_verified

abbrev passed : String → Report
passed method = verified (details_of method)

abbrev probe : Probe
probe = record { ok = true; status = some "verified"; error = none; verification_level = none }

abbrev checks : Checks
checks = record {
  overwrite = λ device. passed "overwrite";
  nvme_sanitize = λ device method. passed method;
  sata_sanitize = λ device method. passed method;
  sata_secure_erase = λ device method. passed method;
  sas_block = λ device method. passed method;
  crypto_probe = λ device mode. probe;
  sampled_zero_check = λ device. probe;
  write_baseline = λ device iface. (some 7, none);
}

abbrev modes : Modes
modes = record { secondary = none; crypto = none }

method_verified :
    (verification_for_method checks "/dev/sdb" (some " SATA ") (some "Crypto") modes true false).ok
    ≡ true
unfolding program
method_verified = refl

verification_for_method-Attested_example :
    (validate_device_path (some "/dev/sdb") ≡ true)
    × Primary checks "/dev/sdb"
        (lower (strip (or_else (some " SATA ") "")))
        (lower (strip (or_else (some "Crypto") "")))
        true
    × Secondary checks "/dev/sdb" modes false
verification_for_method-Attested_example =
    verification_for_method-Attested checks "/dev/sdb" (some " SATA ") (some "Crypto") modes true
      false method_verified
