-- ===== src/Sampled/Hashes/Replaced.antt =====
-- What the comparison of the hashes rests on when it attests an erase.
use drive_eraser.Prelude.{ℕ, ◌<◌, String, ◌≡◌, refl, ◌⊎◌, true, some, List, arith, length}
use drive_eraser.Device.{validate_device_path}
use drive_eraser.Sampled.Retry.{Result, ok, error}
use drive_eraser.Sampled.Station.{Station, has_dd, capacity_of_drive}
use drive_eraser.Sampled.Hashes.{
  Digest, Before, Sample, Comparing, broken, compared, compare_chunks, befores, judge,
  comparison_result, compare_drive, verify_crypto_hash_comparison, attested,
}
use drive_eraser.Sampled.Hashes.Compared.{offsets_in, AllHashed, compare_chunks-Brought}
use drive_eraser.Sampled.Hashes.Judged.{SomeChanged, NoneChanged, judge_attests}

-- What the comparison rests on when it attests the erase of the device.
pub record IsReplaced (digest : Digest) (s : Station) (device : String) (before : Before)
    : Type 0 where
  pub valid : validate_device_path (some device) ≡ true
  pub tool : has_dd s ≡ true
  pub capacity : ℕ
  pub known : capacity_of_drive s ≡ ok capacity
  pub some_places : 0 < length before.offsets
  pub samples : List Sample
  pub places : offsets_in samples ≡ before.offsets
  pub kept : befores samples ≡ before.hashes
  pub hashed : AllHashed digest s capacity 0 samples
  pub verdict : SomeChanged digest s capacity samples ⊎ NoneChanged s capacity samples

module _ (digest : Digest) (s : Station) (device : String) (before : Before) where
  result_attests :
      (capacity : ℕ) (r : Comparing)
      → attested (comparison_result digest s capacity r) ≡ true
      → (xs : List Sample) × (r ≡ compared xs) × (attested (judge digest s capacity xs) ≡ true)
  unfolding comparison_result attested
  result_attests capacity (broken status e) h = cc h
  result_attests capacity (compared xs) h = (xs, refl, h)

  drive-IsReplaced :
      (r : Result ℕ)
      → capacity_of_drive s ≡ r
      → validate_device_path (some device) ≡ true
      → has_dd s ≡ true
      → attested (compare_drive digest s before r) ≡ true
      → IsReplaced digest s device before
  unfolding compare_drive attested
  drive-IsReplaced (error code details) e valid tool h = cc h
  drive-IsReplaced (ok capacity) e valid tool h =
      let (some_places, counts, passed) = tests in
      let (xs, brought, verdict) = result_attests capacity _ passed in
      let (places, kept, hashed) =
        compare_chunks-Brought digest s capacity 0 before.offsets before.hashes xs counts brought in
      record {
        valid = valid;
        tool = tool;
        capacity = capacity;
        known = e;
        some_places = some_places;
        samples = xs;
        places = places;
        kept = kept;
        hashed = hashed;
        verdict = judge_attests digest s capacity xs verdict;
      }
    where
      tests :
          (0 < length before.offsets)
          × (length before.offsets ≡ length before.hashes)
          × (attested (
                comparison_result digest s capacity
                  (compare_chunks digest s capacity 0 before.offsets before.hashes))
              ≡ true)
      tests = ground arith

  comparison-tests :
      attested (verify_crypto_hash_comparison digest s device before) ≡ true
      → (validate_device_path (some device) ≡ true)
        × (has_dd s ≡ true)
        × (attested (compare_drive digest s before (capacity_of_drive s)) ≡ true)
  unfolding verify_crypto_hash_comparison attested
  comparison-tests h = ground arith

-- If the comparison attests the erase, the device path is valid, dd is there, the capacity is known, there
-- are offsets, and at each offset of the state from before a chunk was read and its hash compared with the one kept there.
-- Then either a chunk changed, and each chunk that did not change had the hash of zeros before; or no
-- chunk changed, all hashes are one, and the first chunk, read once more, gave at least one byte and only
-- zeros.
pub verify_crypto_hash_comparison-IsReplaced :
    (digest : Digest) (s : Station) (device : String) (before : Before)
    → attested (verify_crypto_hash_comparison digest s device before) ≡ true
    → IsReplaced digest s device before
verify_crypto_hash_comparison-IsReplaced digest s device before h =
    let (valid, tool, drive) = comparison-tests digest s device before h in
    drive-IsReplaced digest s device before (capacity_of_drive s) refl valid tool drive
