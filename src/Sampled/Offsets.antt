-- ===== src/Sampled/Offsets.antt =====
-- `_generate_sampled_offsets` of backend/crypto_verification.py: places spread over a drive, one in each
-- of the intervals of equal size. Where the source subtracts below 0 it takes the larger of the result
-- and a number from 0 on, so the subtraction that stops at 0 gives the same.
pub mod Spaced
use drive_eraser.Prelude.{
  ℕ, zero, suc, ◌+◌, ◌-◌, ◌*◌, ◌/◌, min, max, Bool, true, false, not, ◌&&◌, List, [], ◌∷◌, ltb,
  ◌==◌, if◌then◌else◌,
}

abbrev pub max_sample_offsets : ℕ
max_sample_offsets = 1000

-- The number of intervals, and the size of a chunk.
pub record Plan : Type 0 where
  pub num_chunks : ℕ
  pub chunk_size : ℕ

-- `max_read_bytes and target_read_bytes > max_read_bytes`; a limit that is absent is 0
unfoldable capped : (max_read target : ℕ) → ℕ
capped max_read target = if not (max_read == 0) && ltb max_read target then max_read else target

unfoldable fitted : (capacity chunk num : ℕ) → Plan
fitted capacity chunk num =
    if ltb capacity chunk
    then record { num_chunks = 1; chunk_size = capacity }
    else record { num_chunks = num; chunk_size = chunk }

unfoldable at_least_one : Plan → Plan
at_least_one p = if p.num_chunks == 0 then record p { num_chunks = 1 } else p

-- The target is `int(capacity * sample_ratio)`.
unfoldable plan : (capacity target chunk max_read : ℕ) → Plan
unfolding capped fitted at_least_one
plan capacity target chunk max_read =
    at_least_one
      (fitted capacity chunk (min (max 1 (capped max_read target / chunk)) max_sample_offsets))

-- `random.randint` in the round of the loop
abbrev pub RandInt : Type 0
RandInt = (round lo hi : ℕ) → ℕ

-- the offset that the round of the loop appends, unless it is 0
unfoldable pick : RandInt → (interval chunk round : ℕ) → ℕ
pick randint interval chunk round =
    let start = round * interval in
    let end = max start ((round + 1) * interval - chunk) in
    if ltb start end then randint round start end else start

unfoldable picks : RandInt → (interval chunk : ℕ) → (left round : ℕ) → List ℕ
unfolding pick
picks randint interval chunk zero round = []
picks randint interval chunk (suc left) round =
    let rest = picks randint interval chunk left (round + 1) in
    let offset = pick randint interval chunk round in
    if not (offset == 0) then offset ∷ rest else rest

unfoldable pub generate_sampled_offsets : RandInt → (capacity target chunk max_read : ℕ) → List ℕ
unfolding plan picks
generate_sampled_offsets randint capacity target chunk max_read =
    let p = plan capacity target chunk max_read in
    picks randint (capacity / p.num_chunks) p.chunk_size p.num_chunks 0
