-- ===== src/Verification/Overwrite/Zones.antt =====
-- What the overwrite check reads, and what its positive answer says of the bytes.
use drive_eraser.Prelude.{
  ℕ, ◌+◌, ◌-◌, ◌*◌, ◌%◌, ◌≤◌, ◌<◌, String, ◌≡◌, refl, true, false, not, none, some, List, [], ◌∷◌,
  arith, ◌==◌, All, any, length,
}
use drive_eraser.Device.{CommandResult, Tools, validate_device_path}
use drive_eraser.Verification.Overwrite.{
  read_size, Zone, zones_of, check_zones, zones_verdict, Capacity, bytes, unreadable, by_capacity,
  with_dd, verify_overwrite,
}

-- The zone lies on the drive and is not empty.
abbrev pub Fits : ℕ → Zone → Type 0
Fits capacity z = (0 < z.size) × (z.offset + z.size ≤ capacity)

-- Of a drive of more than two megabytes two zones are read: the first megabyte, and the megabyte that
-- ends at the last 512-byte boundary of the drive; both lie on the drive.
pub zones_of_large :
    (capacity : ℕ)
    → 2 * read_size < capacity
    → All (Fits capacity) (zones_of capacity)
      × (zones_of capacity
          ≡ record { offset = 0; size = read_size }
            ∷ record { offset = capacity - capacity % 512 - read_size; size = read_size }
            ∷ [])
unfolding zones_of
zones_of_large capacity h = (ground arith, ground arith)

any-false : (bs : List ℕ) → any (λ b. not (b == 0)) bs ≡ false → All (λ b. b ≡ 0) bs
any-false [] h = tt
any-false (b ∷ bs) h = (ground arith, any-false bs (ground arith))

-- The bytes that a zone was read as.
abbrev pub ReadsZero : CommandResult → Type 0
ReadsZero r = (r.ok ≡ true) × (0 < length r.output_bytes) × All (λ b. b ≡ 0) r.output_bytes

check_zones-none :
    (read : Zone → CommandResult) (zs : List Zone)
    → check_zones read zs ≡ none
    → All (λ z. ReadsZero (read z)) zs
unfolding check_zones
check_zones-none read [] h = tt
check_zones-none read (z ∷ zs) h =
    let (answered, some_bytes, zero_bytes, rest) = step in
    (
      (answered, some_bytes, any-false (read z).output_bytes zero_bytes),
      check_zones-none read zs rest,
    )
  where
    step :
        ((read z).ok ≡ true)
        × (0 < length (read z).output_bytes)
        × (any (λ b. not (b == 0)) (read z).output_bytes ≡ false)
        × (check_zones read zs ≡ none)
    step = ground arith

-- What a positive answer of the overwrite check rests on.
pub record IsZeroed (tools : Tools) (read : Zone → CommandResult) (capacity : Capacity)
    (device : String) : Type 0 where
  pub valid : validate_device_path (some device) ≡ true
  pub size : ℕ
  pub known : (capacity ≡ bytes size) × (0 < size)
  pub zeros : All (λ z. ReadsZero (read z)) (zones_of size)

by_capacity_zero :
    (read : Zone → CommandResult) (capacity : Capacity)
    → (by_capacity read capacity).ok ≡ true
    → (n : ℕ) × (capacity ≡ bytes n) × (0 < n) × (check_zones read (zones_of n) ≡ none)
unfolding by_capacity zones_verdict
by_capacity_zero read (bytes n) h = (n, refl, ground arith, ground arith)
by_capacity_zero read (unreadable error) h = cc h

-- A positive answer of `verify_overwrite` means that the device path is valid, the capacity of the
-- drive is known and positive, and every zone of it was read without an error, as one byte or more
-- and as zeros only.
pub verify_overwrite-IsZeroed :
    (tools : Tools) (read : Zone → CommandResult) (capacity : Capacity) (device : String)
    → (verify_overwrite tools read capacity device).ok ≡ true
    → IsZeroed tools read capacity device
verify_overwrite-IsZeroed tools read capacity device h =
    let (valid, positive) = split in
    let (n, known, pos, zones) = by_capacity_zero read capacity positive in
    record {
      valid = valid;
      size = n;
      known = (known, pos);
      zeros = check_zones-none read (zones_of n) zones;
    }
  where
    split : (validate_device_path (some device) ≡ true) × ((by_capacity read capacity).ok ≡ true)
    split = unfold verify_overwrite with_dd in ground arith
