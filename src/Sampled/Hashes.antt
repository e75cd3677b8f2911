-- ===== src/Sampled/Hashes.antt =====
-- `capture_before_state` and `verify_crypto_hash_comparison` of backend/crypto_verification.py: the hashes
-- of sampled chunks before a cryptographic erase, and their comparison with those behind it. `digest`
-- stands for `hashlib.sha256(data).hexdigest()`; `hmac.compare_digest` is equality. Locks, callbacks and
-- the figures of `details` are left out.
pub mod Compared
pub mod Judged
pub mod Replaced
pub mod Wiped
use drive_eraser.Prelude.{
  ℕ, zero, suc, ◌+◌, String, Bool, true, false, not, ◌&&◌, Option, none, some, List, [], ◌∷◌, ◌==◌,
  all, any, length, str_eq, if◌then◌else◌,
}
use drive_eraser.Device.{validate_device_path}
use drive_eraser.Sampled.Retry.{Result, ok, error}
use drive_eraser.Sampled.Station.{
  Station, has_dd, capacity_of_drive, read_sample, read_size, offsets_of,
}
use drive_eraser.Sampled.Zeros.{has_nonzero}

abbrev pub Digest : Type 0
Digest = List ℕ → String

-- `b'\x00' * size`
unfoldable pub zero_bytes : ℕ → List ℕ
zero_bytes zero = []
zero_bytes (suc n) = 0 ∷ zero_bytes n

-- What `capture_before_state` returns: an error, or the offsets with their hashes.
pub data Capture : Type 0 where
  not_captured : (error : String) → Capture
  captured : (offsets : List ℕ) → (hashes : List String) → Capture

-- The loop that captures: the hashes of the chunks, in order, or the error.
pub data Hashing : Type 0 where
  stopped : (error : String) → Hashing
  hashed : List String → Hashing

unfoldable pub prepend : String → Hashing → Hashing
prepend h (stopped e) = stopped e
prepend h (hashed hs) = hashed (h ∷ hs)

unfoldable pub capture_hashes : Digest → Station → (capacity read : ℕ) → List ℕ → Hashing
capture_hashes digest s capacity read [] = hashed []
capture_hashes digest s capacity read (offset ∷ offsets) = elim (s.interrupted (read + 1)) [
  | true ↦ stopped "verification_interrupted"
  | false ↦ elim (read_sample s capacity read offset) [
    | error code details ↦ stopped "capture_read_failed"
    | ok bytes ↦ prepend (digest bytes) (capture_hashes digest s capacity (read + 1) offsets)
  ]
]

unfoldable pub capture_result : List ℕ → Hashing → Capture
capture_result offsets (stopped e) = not_captured e
capture_result offsets (hashed hs) = captured offsets hs

unfoldable pub capture_drive : Digest → Station → Result ℕ → Capture
unfolding capture_result
capture_drive digest s (error code details) = not_captured "capture_capacity_check_failed"
capture_drive digest s (ok capacity) =
    let offsets = 0 ∷ offsets_of s capacity in
    capture_result offsets (capture_hashes digest s capacity 0 offsets)

unfoldable pub capture_before_state : Digest → Station → String → Capture
capture_before_state digest s device =
    if not (validate_device_path (some device))
    then not_captured "invalid_device_path"
    else if not (has_dd s)
    then not_captured "dd_not_available_for_capture"
    else if s.interrupted 0
    then not_captured "verification_interrupted"
    else capture_drive digest s (capacity_of_drive s)

-- The keys of the state that the comparison reads.
pub record Before : Type 0 where
  pub ok : Bool
  pub offsets : List ℕ
  pub hashes : List String

unfoldable pub before_of : Capture → Before
before_of (not_captured e) = record { ok = false; offsets = []; hashes = [] }
before_of (captured offsets hashes) = record { ok = true; offsets = offsets; hashes = hashes }

-- A chunk with its hashes.
pub record Sample : Type 0 where
  pub offset : ℕ
  pub before : String
  pub after : String

-- How the comparison ends: with an error, a chunk that kept data, chunks that all changed or were zeros
-- before, a drive that was and is zero, or one of which nothing changed.
pub data Comparison : Type 0 where
  halted : (status error : String) → Comparison
  partial_wipe : (offset : ℕ) → Comparison
  changed was_zero unchanged : Comparison

-- The loop over the offsets, with the hashes at their places: `before_hashes[idx]`. The lists have one
-- length, which was tested.
pub data Comparing : Type 0 where
  broken : (status error : String) → Comparing
  compared : List Sample → Comparing

unfoldable pub add_sample : Sample → Comparing → Comparing
add_sample x (broken status e) = broken status e
add_sample x (compared xs) = compared (x ∷ xs)

unfoldable pub compare_chunks :
    Digest → Station → (capacity read : ℕ) → List ℕ → List String → Comparing
compare_chunks digest s capacity read [] hashes = compared []
compare_chunks digest s capacity read (offset ∷ offsets) [] = compared []
compare_chunks digest s capacity read (offset ∷ offsets) (hash ∷ hashes) =
    elim (s.interrupted read) [
      | true ↦ broken "verification_interrupted" "verification_interrupted"
      | false ↦ elim (read_sample s capacity read offset) [
        | error code details ↦ broken "verification_error" "crypto_comparison_read_failed"
        | ok bytes ↦
            add_sample (record { offset = offset; before = hash; after = digest bytes })
              (compare_chunks digest s capacity (read + 1) offsets hashes)
      ]
    ]

unfoldable pub is_unchanged : Sample → Bool
is_unchanged x = str_eq x.after x.before

unfoldable pub unchanged_of : List Sample → List Sample
unchanged_of [] = []
unchanged_of (x ∷ xs) = let rest = unchanged_of xs in if is_unchanged x then x ∷ rest else rest

-- The loop over the chunks that did not change: the offset that it last found not to be zeros, if any.
pub data Recheck : Type 0 where
  cut_off : Recheck
  rechecked : Option ℕ → Recheck

unfoldable pub was_zero_chunk : Digest → Station → ℕ → Sample → Bool
was_zero_chunk digest s capacity x =
    str_eq x.before (digest (zero_bytes (read_size s capacity x.offset)))

unfoldable pub recheck_unchanged :
    Digest → Station → (capacity check : ℕ) → Option ℕ → List Sample → Recheck
recheck_unchanged digest s capacity check found [] = rechecked found
recheck_unchanged digest s capacity check found (x ∷ xs) = elim (s.interrupted check) [
  | true ↦ cut_off
  | false ↦
      recheck_unchanged digest s capacity (check + 1)
        (if not (was_zero_chunk digest s capacity x) then some x.offset else found) xs
]

unfoldable pub recheck_result : Recheck → Comparison
recheck_result cut_off = halted "verification_interrupted" "verification_interrupted"
recheck_result (rechecked (some offset)) = partial_wipe offset
recheck_result (rechecked none) = changed

-- `len(set(hashes)) == 1`
unfoldable pub all_same : List String → Bool
all_same [] = false
all_same (h ∷ hs) = all (λ k. str_eq h k) hs

-- One hash of each chunk
abbrev pub hashes_by : (Sample → String) → List Sample → List String
hashes_by hash [] = []
hashes_by hash (x ∷ xs) = hash x ∷ hashes_by hash xs

abbrev pub befores : List Sample → List String
befores = hashes_by (λ x. x.before)

abbrev pub afters : List Sample → List String
afters = hashes_by (λ x. x.after)

-- The first chunk is read once more; an error counts as data that did not change.
unfoldable pub reread_result : Result (List ℕ) → Comparison
reread_result (error code details) = unchanged
reread_result (ok []) = unchanged
reread_result (ok (b ∷ bs)) = if has_nonzero (b ∷ bs) then unchanged else was_zero

unfoldable pub nothing_changed : Station → ℕ → List Sample → Comparison
nothing_changed s capacity [] = unchanged
nothing_changed s capacity (x ∷ xs) =
    let reread = reread_result (read_sample s capacity (length (x ∷ xs)) x.offset) in
    if all_same (befores (x ∷ xs)) && all_same (afters (x ∷ xs)) && str_eq x.before x.after
    then reread
    else unchanged

-- `if any_changed`; where all chunks changed there is nothing to look at again
unfoldable pub judge : Digest → Station → ℕ → List Sample → Comparison
judge digest s capacity samples =
    if any (λ x. not (is_unchanged x)) samples
    then recheck_result
        (recheck_unchanged digest s capacity (length samples) none (unchanged_of samples))
    else nothing_changed s capacity samples

unfoldable pub comparison_result : Digest → Station → ℕ → Comparing → Comparison
comparison_result digest s capacity (broken status e) = halted status e
comparison_result digest s capacity (compared samples) = judge digest s capacity samples

unfoldable pub compare_drive : Digest → Station → Before → Result ℕ → Comparison
compare_drive digest s before (error code details) = halted "verification_error" code
compare_drive digest s before (ok capacity) =
    if length before.offsets == 0
    then halted "verification_error" "before_state_invalid"
    else if not (length before.offsets == length before.hashes)
    then halted "verification_error" "before_state_invalid"
    else comparison_result digest s capacity
        (compare_chunks digest s capacity 0 before.offsets before.hashes)

unfoldable pub verify_crypto_hash_comparison : Digest → Station → String → Before → Comparison
verify_crypto_hash_comparison digest s device before =
    if not (validate_device_path (some device))
    then halted "verification_error" "invalid_device_path"
    else if not (has_dd s)
    then halted "verification_error" "dd_not_available_for_comparison"
    else compare_drive digest s before (capacity_of_drive s)

-- the key `ok` of the answer
unfoldable pub attested : Comparison → Bool
attested (halted status e) = false
attested (partial_wipe offset) = false
attested changed = true
attested was_zero = true
attested unchanged = false
