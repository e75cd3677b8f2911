-- ===== src/Sampled/Zeros.antt =====
-- `verify_sampled_zero_check` of backend/crypto_verification.py: the first chunk and the sampled chunks of
-- the drive must read as zeros. The lock of the device and the progress callback are left out.
pub mod Clean
use drive_eraser.Prelude.{
  ℕ, ◌+◌, String, Bool, true, false, not, some, List, [], ◌∷◌, ◌==◌, any, length, if◌then◌else◌,
}
use drive_eraser.Device.{validate_device_path}
use drive_eraser.Sampled.Retry.{Result, ok, error}
use drive_eraser.Sampled.Station.{Station, has_dd, capacity_of_drive, read_sample, offsets_of}

-- The answer: an error, the place of a byte that is not zero, or zeros, with the bytes read.
pub data Sampling : Type 0 where
  refused : (error : String) → Sampling
  nonzero_at : (offset total : ℕ) → Sampling
  all_zero : (total chunks : ℕ) → Sampling

-- `data.count(0) != len(data)`
unfoldable pub has_nonzero : List ℕ → Bool
has_nonzero bytes = any (λ b. not (b == 0)) bytes

-- The loop over the offsets. The first test of the signal flag was made before it.
unfoldable pub sample_zeros : Station → (capacity chunks read total : ℕ) → List ℕ → Sampling
sample_zeros s capacity chunks read total [] = all_zero total chunks
sample_zeros s capacity chunks read total (offset ∷ offsets) = elim (s.interrupted (read + 1)) [
  | true ↦ refused "verification_interrupted"
  | false ↦ elim (read_sample s capacity read offset) [
    | error code details ↦ refused code
    | ok bytes ↦ elim (has_nonzero bytes) [
      | true ↦ nonzero_at offset (total + length bytes)
      | false ↦ sample_zeros s capacity chunks (read + 1) (total + length bytes) offsets
    ]
  ]
]

unfoldable pub sample_drive : Station → Result ℕ → Sampling
sample_drive s (error code details) = refused code
sample_drive s (ok capacity) =
    let offsets = 0 ∷ offsets_of s capacity in sample_zeros s capacity (length offsets) 0 0 offsets

unfoldable pub verify_sampled_zero_check : Station → String → Sampling
verify_sampled_zero_check s device =
    if not (validate_device_path (some device))
    then refused "invalid_device_path"
    else if not (has_dd s)
    then refused "dd_not_available_for_zero_check"
    else if s.interrupted 0
    then refused "verification_interrupted"
    else sample_drive s (capacity_of_drive s)

-- the key `ok` of the answer
unfoldable pub passed : Sampling → Bool
passed (refused code) = false
passed (nonzero_at offset total) = false
passed (all_zero total chunks) = true
