-- ===== src/Sampled/Samples.antt =====
-- A drive of eight bytes before and behind an erase, and what the theorems on the sampled checks say of it.
use Prim.Native.String.{String}
use Prim.Native.Char.{code}
use drive_eraser.Prelude.{
  ℕ, zero, suc, ◌≤◌, ◌<◌, ◌≡◌, ◌↔◌, refl, ap, inl, inr, true, false, ◌&&◌, Option, none, some, List,
  [], ◌∷◌, ◌==◌, arith, length, Bool-cases, if◌then◌else◌, lower, strip, or_else, lstrip, rstrip,
  contains, member,
}
use drive_eraser.Device.{validate_device_path}
use drive_eraser.Device.Path.{valid_codes, has_dots, matches, segments, in_segment, is_path_char}
use drive_eraser.Verification.Nvme.Field.{is_digit}
use drive_eraser.Verification.Dispatch.{
  Checks, Modes, verification_for_method, primary, is_crypto_or_block, secondary, secondary_mode,
  with_baseline,
}
use drive_eraser.Verification.Report.{verified, details_of}
use drive_eraser.Sampled.Retry.{
  sized, ended, Reading, parse_int, capacity_of, bytes_of, attempts_from, classify, is_detached,
  run_blockdev_getsize64, run_dd_read_with_retry, dd_indicators,
}
use drive_eraser.Sampled.Retry.Told.{Told, run_dd_read_with_retry-Told}
use drive_eraser.Sampled.Offsets.{generate_sampled_offsets, RandInt}
use drive_eraser.Sampled.Offsets.Spaced.{Spaced, generate_sampled_offsets-Spaced}
use drive_eraser.Sampled.Station.{
  Station, has_dd, capacity_of_drive, read_size, actual_bs, read_sample, offsets_of,
}
use drive_eraser.Sampled.Zeros.{
  has_nonzero, sample_zeros, sample_drive, verify_sampled_zero_check, passed,
}
use drive_eraser.Sampled.Zeros.Clean.{
  IsSampledZero, verify_sampled_zero_check_iff, empty_reads_pass,
}
use drive_eraser.Sampled.Hashes.{
  zero_bytes, Before, prepend, capture_hashes, capture_result, capture_drive, capture_before_state,
  before_of, add_sample, compare_chunks, is_unchanged, unchanged_of, was_zero_chunk,
  recheck_unchanged, recheck_result, all_same, reread_result, nothing_changed, judge,
  comparison_result, compare_drive, verify_crypto_hash_comparison, attested,
}
use drive_eraser.Sampled.Hashes.Wiped.{KnowsZeros, IsWiped, captured_comparison-IsWiped}
use drive_eraser.Sampled.Probe.{
  probe_of_sampling, probe_of_comparison, is_skipped, selected_mode, is_captured, by_before,
  verify_crypto_probe, with_samples, verified_probe,
}
use drive_eraser.Sampled.Probe.Evidence.{Evidence, verification_for_method-Evidence}
use drive_eraser.Sampled.ZoneRead.{
  Event, chunk, take, bytes_eq, is_zero, first_reason, on_chunk, on_watch, on_event, after,
  streamed, is_zero_exit, by_reason, run_cancellable_zone_read,
}
use drive_eraser.Sampled.ZoneRead.Calm.{Calm, received, is_clean, run_cancellable_zone_read_iff}
use drive_eraser.Sampled.Detection.{
  default_policy, block_size_of, aligned_size, five_zones, zones_of, clamp, Rounds, on_zone_error,
  check_zones, check_capacity, check_drive_already_zeroed,
}
use drive_eraser.Sampled.Detection.Layout.{zone_size_of, IsLayout, zones_of-IsLayout}
use drive_eraser.Sampled.Detection.Zeroed.{IsDetected, check_drive_already_zeroed-IsDetected}

program : Unit {0}
unfolding validate_device_path valid_codes has_dots matches segments in_segment is_path_char lower
    strip lstrip rstrip contains member or_else is_digit parse_int capacity_of bytes_of
    attempts_from classify is_detached run_blockdev_getsize64 run_dd_read_with_retry
    generate_sampled_offsets has_dd capacity_of_drive read_size actual_bs read_sample offsets_of
    has_nonzero sample_zeros sample_drive verify_sampled_zero_check passed zero_bytes prepend
    capture_hashes capture_result capture_drive capture_before_state before_of add_sample
    compare_chunks is_unchanged unchanged_of was_zero_chunk recheck_unchanged recheck_result
    all_same reread_result nothing_changed judge comparison_result compare_drive
    verify_crypto_hash_comparison attested probe_of_sampling probe_of_comparison is_skipped
    selected_mode is_captured by_before verify_crypto_probe with_samples take bytes_eq is_zero
    first_reason on_chunk on_watch on_event after is_zero_exit by_reason run_cancellable_zone_read
    block_size_of aligned_size five_zones zones_of clamp on_zone_error check_zones check_capacity
    check_drive_already_zeroed verification_for_method primary is_crypto_or_block secondary
    secondary_mode with_baseline
program = tt

-- A hash that tells zeros from the rest, place by place.
byte_mark : ℕ → String → String
byte_mark b s = if b == 0 then String.◌∷◌ "0" s else String.◌∷◌ "1" s

head_code : String → ℕ
head_code String.[] = 0
head_code (String.◌∷◌ c s) = code c

digest_of : List ℕ → String
digest_of [] = ""
digest_of (b ∷ bs) = byte_mark b (digest_of bs)

digest_of-KnowsZeros : KnowsZeros digest_of
unfolding digest_of byte_mark head_code zero_bytes
digest_of-KnowsZeros zero [] h = refl
digest_of-KnowsZeros (suc n) [] h = cc h
digest_of-KnowsZeros zero (b ∷ bs) h = elim (Bool-cases (b == 0)) [
  | inl nil_byte ↦ cc (rw (nil_byte, digest_of, byte_mark) at h)
  | inr other ↦ cc (rw (other, digest_of, byte_mark) at h)
]
digest_of-KnowsZeros (suc n) (b ∷ bs) h = elim (Bool-cases (b == 0)) [
  | inl nil_byte ↦
      let tails : String.◌∷◌ "0" (digest_of bs) ≡ String.◌∷◌ "0" (digest_of (zero_bytes n)) =
        rw (nil_byte, digest_of, byte_mark) at h in
      let rest = digest_of-KnowsZeros n bs (cc tails) in
      let first : b ≡ 0 = ground arith in cc (first, rest)
  | inr other ↦
      let tails : String.◌∷◌ "1" (digest_of bs) ≡ String.◌∷◌ "0" (digest_of (zero_bytes n)) =
        rw (other, digest_of, byte_mark) at h in
      absurd (omega (arith, ap head_code tails))
]

abbrev content : ℕ → ℕ → List ℕ
content byte offset = if offset == 0 then byte ∷ byte ∷ [] else 0 ∷ 0 ∷ []

-- The first attempt at the first read fails.
abbrev reading : ℕ → (read attempt bs offset : ℕ) → Reading
reading byte read attempt bs offset =
    if read == 0 && attempt == 0
    then ended 1 [] "dd: Input/output error"
    else ended 0 (content byte offset) ""

abbrev lowest : RandInt
lowest round lo hi = lo

abbrev station : ℕ → Station
station byte = record {
  path_of = λ name. some "/usr/bin/dd";
  blockdev = λ attempt. sized 0 "8\n" "";
  dd = reading byte;
  interrupted = λ n. false;
  retries = 1;
  randint = lowest;
  target = λ capacity. capacity;
  chunk_size = 2;
  max_read = 0;
}

captured_comparison-IsWiped_example : IsWiped (station 7) (station 0)
unfolding program
captured_comparison-IsWiped_example =
    captured_comparison-IsWiped digest_of (station 7) (station 0) "/dev/sda" digest_of-KnowsZeros
      (unfold digest_of byte_mark in refl)

generate_sampled_offsets-Spaced_example :
    Spaced 2 0 8 (generate_sampled_offsets lowest 8 8 2 0)
    × (length (generate_sampled_offsets lowest 8 8 2 0) ≤ 1000)
generate_sampled_offsets-Spaced_example =
    generate_sampled_offsets-Spaced lowest 8 8 2 0 (λ round lo hi h. (omega arith, h)) (omega arith)
      (omega arith)

verify_sampled_zero_check_iff_example :
    (passed (verify_sampled_zero_check (station 0) "/dev/sda") ≡ true)
    ↔ IsSampledZero (station 0) "/dev/sda"
verify_sampled_zero_check_iff_example = verify_sampled_zero_check_iff (station 0) "/dev/sda"

zeros_pass : passed (verify_sampled_zero_check (station 0) "/dev/sda") ≡ true
unfolding program
zeros_pass = refl

data_fails : passed (verify_sampled_zero_check (station 7) "/dev/sda") ≡ false
unfolding program
data_fails = refl

-- A drive of which dd reads nothing.
abbrev silent : Station
silent = record (station 0) { dd = λ read attempt bs offset. ended 0 [] "" }

empty_reads_pass_example : passed (verify_sampled_zero_check silent "/dev/sda") ≡ true
unfolding program
empty_reads_pass_example =
    empty_reads_pass silent "/dev/sda" 8 refl refl (λ n. refl) refl (λ n bs o. refl)

run_dd_read_with_retry-Told_example :
    Told
      (λ attempt. bytes_of (reading 7 0 attempt 2 0))
      1
      dd_indicators
      "secondary_sampled_read_failed"
      (run_dd_read_with_retry (λ attempt. reading 7 0 attempt 2 0) 1)
run_dd_read_with_retry-Told_example =
    run_dd_read_with_retry-Told (λ attempt. reading 7 0 attempt 2 0) 1

-- Two chunks of zeros, and the end of the stream.
abbrev stream : List Event
stream = chunk (0 ∷ 0 ∷ []) ∷ chunk (0 ∷ []) ∷ chunk [] ∷ []

abbrev fine : Option ℕ
fine = some 0

run_cancellable_zone_read_iff_example :
    (is_clean (run_cancellable_zone_read 2 (streamed stream fine)) ≡ true)
    ↔ (Calm 2 stream × (fine ≡ some 0) × (0 < received stream))
run_cancellable_zone_read_iff_example = run_cancellable_zone_read_iff 2 stream fine

zones_of-IsLayout_example :
    IsLayout
      (block_size_of default_policy)
      (zone_size_of default_policy)
      4294967296
      (zones_of default_policy 4294967296)
unfolding program
zones_of-IsLayout_example =
    zones_of-IsLayout default_policy 4294967296 (omega arith) (omega arith) (omega arith)

abbrev rounds : Rounds
rounds = record { is_cancelled = λ round. false; stream = λ round z. streamed stream (some 0) }

drive_zeroed :
    (check_drive_already_zeroed (station 0) rounds default_policy "/dev/sda").is_zeroed ≡ some true
unfolding program
drive_zeroed = refl

check_drive_already_zeroed-IsDetected_example :
    IsDetected (station 0) rounds default_policy "/dev/sda"
check_drive_already_zeroed-IsDetected_example =
    check_drive_already_zeroed-IsDetected (station 0) rounds default_policy "/dev/sda" drive_zeroed

abbrev checks : Checks
checks = record {
  overwrite = λ device. verified (details_of "overwrite");
  nvme_sanitize = λ device method. verified (details_of method);
  sata_sanitize = λ device method. verified (details_of method);
  sata_secure_erase = λ device method. verified (details_of method);
  sas_block = λ device method. verified (details_of method);
  crypto_probe = λ device mode. verified_probe none;
  sampled_zero_check = λ device. verified_probe none;
  write_baseline = λ device iface. (some 7, none);
}

-- What was captured of the drive before.
abbrev before : Option Before
before =
    some
      (record { ok = true; offsets = 0 ∷ 2 ∷ 4 ∷ 6 ∷ []; hashes = "11" ∷ "00" ∷ "00" ∷ "00" ∷ [] })

abbrev modes : Modes
modes = record { secondary = none; crypto = none }

verification_for_method-Evidence_example : Evidence digest_of (station 0) "/dev/sda" before
unfolding program
verification_for_method-Evidence_example =
    verification_for_method-Evidence digest_of (station 0) before checks "/dev/sda" (some "sata")
      (some "crypto") modes true refl refl (unfold digest_of byte_mark in refl)
