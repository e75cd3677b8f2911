-- ===== src/Sampled/Station.antt =====
-- What one call of a sampled check of backend/crypto_verification.py finds on the station: the answers of
-- the tools, the signals, and the policy. The drive is read through dd only.
use drive_eraser.Prelude.{ℕ, ◌-◌, min, String, Bool, Option, List, ltb, truthy, if◌then◌else◌}
use drive_eraser.Sampled.Retry.{
  Sizing, Reading, Result, run_blockdev_getsize64, run_dd_read_with_retry,
}
use drive_eraser.Sampled.Offsets.{RandInt, generate_sampled_offsets}

pub record Station : Type 0 where
  -- `get_command_path`
  pub path_of : String → Option String
  -- `blockdev --getsize64`, by the number of the attempt
  pub blockdev : ℕ → Sizing
  -- dd of one block, by the number of the read, of the attempt, the block size and the offset
  pub dd : (read attempt bs offset : ℕ) → Reading
  -- `_check_interrupted()`: whether a signal came before the n-th test of the flag since its reset
  pub interrupted : ℕ → Bool
  -- `blockdev_post_wipe_retries` of the policy
  pub retries : ℕ
  pub randint : RandInt
  -- `int(capacity * sample_ratio)`
  pub target : ℕ → ℕ
  pub chunk_size : ℕ
  pub max_read : ℕ

-- `if not dd_cmd`
unfoldable pub has_dd : Station → Bool
has_dd s = truthy (s.path_of "dd")

unfoldable pub capacity_of_drive : Station → Result ℕ
capacity_of_drive s = run_blockdev_getsize64 s.blockdev s.retries

-- `min(chunk_size_bytes, capacity - offset)`. Of an offset behind the end of the drive the size is 0, for
-- the negative number of the source: of neither does dd read a block.
unfoldable pub read_size : Station → (capacity offset : ℕ) → ℕ
read_size s capacity offset = min s.chunk_size (capacity - offset)

unfoldable pub actual_bs : Station → (capacity offset : ℕ) → ℕ
unfolding read_size
actual_bs s capacity offset =
    if ltb (read_size s capacity offset) s.chunk_size
    then read_size s capacity offset
    else s.chunk_size

unfoldable pub read_sample : Station → (capacity read offset : ℕ) → Result (List ℕ)
unfolding actual_bs
read_sample s capacity read offset =
    run_dd_read_with_retry (λ attempt. s.dd read attempt (actual_bs s capacity offset) offset)
      s.retries

-- the offsets behind the first
unfoldable pub offsets_of : Station → ℕ → List ℕ
offsets_of s capacity =
    generate_sampled_offsets s.randint capacity (s.target capacity) s.chunk_size s.max_read
