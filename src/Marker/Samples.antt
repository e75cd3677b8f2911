-- ===== src/Marker/Samples.antt =====
-- A marker with braces and quotes in its texts, and what the theorems say of it.
use drive_eraser.Prelude.{
  ◌≡◌, refl, String, true, Option, none, some, List, [], ◌∷◌, arith, lower, strip, or_else, lstrip,
  rstrip, contains, member, if◌then◌else◌,
}
use drive_eraser.Device.{validate_device_path, check_write_tolerance, untracked, tolerance_of}
use drive_eraser.Device.Path.{valid_codes, has_dots, matches, segments, in_segment, is_path_char}
use drive_eraser.Sampled.ZoneRead.{bytes_eq}
use drive_eraser.Marker.Dumps.{
  number, text, Field, hex_digit, unicode_escape, control_code, escape_code, escape, print_string,
  decimal, print_value, print_field, print_more, print_fields, dumps, codes_le, insert_field,
  sort_keys,
}
use drive_eraser.Marker.Read.{Crypto, exited, checksum_valid, MarkerDrive, read_marker_status}
use drive_eraser.Marker.Write.{
  MarkedJob, or_null, number_or_null, payload_fields, with_checksum, with_hmac, marker_fields,
  build_marker_payload, padding, block_of, Bench, request_baseline, write_marker_and_verify,
}
use drive_eraser.Marker.RoundTrip.{told, Readable, read_marker_status-block_of}
use drive_eraser.Marker.Marked.{MarkedBy, write_marker_and_verify-marks}

program : Unit {0}
unfolding validate_device_path valid_codes has_dots matches segments in_segment is_path_char lower
    strip lstrip rstrip contains member or_else bytes_eq hex_digit unicode_escape control_code
    escape_code escape print_string decimal print_value print_field print_more print_fields dumps
    codes_le insert_field sort_keys or_null number_or_null payload_fields with_checksum with_hmac
    marker_fields build_marker_payload padding block_of request_baseline check_write_tolerance
    untracked tolerance_of
program = tt

abbrev job : MarkedJob
job = record {
  friendly_id = some "J-7";
  id = some "1f";
  finished_at = some "2026-01-02T03:04:05";
  ticket_number = some "T{1}\"";
  serial = some "S}1";
  method = some "crypto";
  data_written_at_wipe = some 4200;
  write_counter_source = some "sata_attr_241";
  device = some "/dev/sda";
  interface_type = some "sata";
}

abbrev fields : List Field
fields =
    ("signature", text "DWS_MARKER_V1")
    ∷ ("version", number 1)
    ∷ ("job_id", text "J-7")
    ∷ ("finished_at", text "2026-01-02T03:04:05")
    ∷ ("ticket_number", text "T{1}\"")
    ∷ ("serial", text "S}1")
    ∷ ("method", text "crypto")
    ∷ ("data_written_at_wipe", number 4200)
    ∷ ("write_counter_source", text "sata_attr_241")
    ∷ ("checksum", text "5a")
    ∷ ("hmac", text "c3")
    ∷ []

-- Hashes of one value, and a reading of this marker alone.
abbrev crypto : Crypto
crypto = record {
  sha256 = λ bytes. "5a";
  keyed = λ passphrase bytes. "c3";
  loads = λ bytes. if bytes_eq bytes (dumps fields) then some fields else none;
}

abbrev passphrase : Option String
passphrase = some "open sesame"

abbrev drive : MarkerDrive
drive = record {
  dd_path = some "/usr/bin/dd";
  direct = exited 0 (block_of (build_marker_payload crypto "now" job passphrase));
  buffered = exited 1 [];
}

readable : Readable crypto "now" job passphrase drive
unfolding program
readable = record {
  hex = record { ascii = λ p bytes. refl; nonempty = λ p bytes e. cc e };
  law = refl;
  fits = omega arith;
  tool = refl;
  kept = refl;
}

read_marker_status-block_of_example :
    read_marker_status crypto drive "/dev/sda" passphrase ≡ checksum_valid true (told "now" job)
unfolding program
read_marker_status-block_of_example =
    read_marker_status-block_of crypto "now" job passphrase drive "/dev/sda" readable refl

abbrev bench : Bench
bench = record {
  dd_path = some "/usr/bin/dd";
  write = λ block. exited 0 [];
  drive = drive;
  baseline = (none, none);
  current_writes = some 4300;
  passphrase = passphrase;
  now = "now";
  digest_error = "comparing strings with non-ASCII characters is not supported";
  int_error = λ stored. "invalid literal for int() with base 10";
}

write_marker_and_verify-marks_example :
    MarkedBy "now" (some 4300) job (write_marker_and_verify crypto bench (some 4200) job)
unfolding program
write_marker_and_verify-marks_example =
    write_marker_and_verify-marks crypto bench (some 4200) job "/dev/sda" [] refl refl refl readable
      refl
