-- ===== src/Sampled/Zeros/Clean.antt =====
-- When the sampled zero check passes.
use drive_eraser.Prelude.{
  ℕ, suc, ◌+◌, String, ◌≡◌, ◌↔◌, refl, true, false, not, some, List, [], ◌∷◌, arith, All, length,
  Bool-cases, inl, inr, ◌⊎◌,
}
use drive_eraser.Device.{validate_device_path}
use drive_eraser.Sampled.Retry.{
  Result, ok, error, ended, run_dd_read_with_retry, attempts_from, bytes_of, classify,
}
use drive_eraser.Sampled.Station.{
  Station, has_dd, capacity_of_drive, read_sample, actual_bs, offsets_of,
}
use drive_eraser.Sampled.Zeros.{
  has_nonzero, sample_zeros, sample_drive, verify_sampled_zero_check, passed,
}

-- The bytes, of which there may be none, are zeros.
abbrev pub Zeros : List ℕ → Type 0
Zeros bytes = All (λ b. b ≡ 0) bytes

pub has_nonzero-Zeros : (bytes : List ℕ) → has_nonzero bytes ≡ false → Zeros bytes
unfolding has_nonzero
has_nonzero-Zeros [] h = tt
has_nonzero-Zeros (b ∷ bs) h = (ground arith, has_nonzero-Zeros bs (ground arith))

pub Zeros-has_nonzero : (bytes : List ℕ) → Zeros bytes → has_nonzero bytes ≡ false
unfolding has_nonzero
Zeros-has_nonzero [] z = refl
Zeros-has_nonzero (b ∷ bs) z = ground (arith, Zeros-has_nonzero bs z.1)

-- The chunk at the offset was read, in the read of that number, as zeros.
abbrev pub ReadsZero : Station → (capacity read offset : ℕ) → Type 0
ReadsZero s capacity read offset =
    (s.interrupted (read + 1) ≡ false)
    × (bytes : List ℕ) × (read_sample s capacity read offset ≡ ok bytes)
    × Zeros bytes

abbrev pub AllReadZero : Station → (capacity read : ℕ) → List ℕ → Type 0
AllReadZero s capacity read [] = Unit
AllReadZero s capacity read (o ∷ os) =
    ReadsZero s capacity read o × AllReadZero s capacity (read + 1) os

pub Result-cases :
    {A : Type 0} (r : Result A)
    → ((a : A) × (r ≡ ok a)) ⊎ ((code : String) × (details : String) × (r ≡ error code details))
Result-cases (ok a) = inl (a, refl)
Result-cases (error code details) = inr (code, details, refl)

sample_zeros-AllReadZero :
    (s : Station) (capacity chunks read total : ℕ) (os : List ℕ)
    → passed (sample_zeros s capacity chunks read total os) ≡ true
    → AllReadZero s capacity read os
unfolding sample_zeros passed
sample_zeros-AllReadZero s capacity chunks read total [] h = tt
sample_zeros-AllReadZero s capacity chunks read total (o ∷ os) h =
    elim (Bool-cases (s.interrupted (read + 1))) [
      | inl stopped ↦ cc (rw (stopped, sample_zeros, passed) at h)
      | inr on ↦ elim (Result-cases (read_sample s capacity read o)) [
        | inl (bytes, e) ↦ elim (Bool-cases (has_nonzero bytes)) [
          | inl found ↦ cc (rw (on, e, found, sample_zeros, passed) at h)
          | inr fine ↦ (
            (on, bytes, e, has_nonzero-Zeros bytes fine),
            sample_zeros-AllReadZero s capacity chunks (read + 1) (total + length bytes) os
                (rw (on, e, fine, sample_zeros) at h),
          )
        ]
        | inr (code, details, e) ↦ cc (rw (on, e, sample_zeros, passed) at h)
      ]
    ]

AllReadZero-sample_zeros :
    (s : Station) (capacity chunks read total : ℕ) (os : List ℕ)
    → AllReadZero s capacity read os
    → passed (sample_zeros s capacity chunks read total os) ≡ true
unfolding sample_zeros passed
AllReadZero-sample_zeros s capacity chunks read total [] a = refl
AllReadZero-sample_zeros s capacity chunks read total (o ∷ os) a =
    let ((on, bytes, e, zeros), rest) = a in
    rw (on, e, Zeros-has_nonzero bytes zeros, sample_zeros)
      (AllReadZero-sample_zeros s capacity chunks (read + 1) (total + length bytes) os rest)

-- What the sampled zero check rests on when it passes.
pub record IsSampledZero (s : Station) (device : String) : Type 0 where
  pub valid : validate_device_path (some device) ≡ true
  pub tool : has_dd s ≡ true
  pub started : s.interrupted 0 ≡ false
  pub capacity : ℕ
  pub known : capacity_of_drive s ≡ ok capacity
  pub zeros : AllReadZero s capacity 0 (0 ∷ offsets_of s capacity)

sampled-tests :
    (s : Station) (device : String)
    → passed (verify_sampled_zero_check s device) ≡ true
    → (validate_device_path (some device) ≡ true)
      × (has_dd s ≡ true)
      × (s.interrupted 0 ≡ false)
      × (passed (sample_drive s (capacity_of_drive s)) ≡ true)
unfolding verify_sampled_zero_check passed
sampled-tests s device h = ground arith

drive-IsSampledZero :
    (s : Station) (device : String) (r : Result ℕ)
    → capacity_of_drive s ≡ r
    → validate_device_path (some device) ≡ true
    → has_dd s ≡ true
    → s.interrupted 0 ≡ false
    → passed (sample_drive s r) ≡ true
    → IsSampledZero s device
unfolding sample_drive passed
drive-IsSampledZero s device (error code details) e valid tool started h = cc h
drive-IsSampledZero s device (ok capacity) e valid tool started h = record {
  valid = valid;
  tool = tool;
  started = started;
  capacity = capacity;
  known = e;
  zeros = sample_zeros-AllReadZero s capacity _ 0 0 (0 ∷ offsets_of s capacity) h;
}

-- The sampled zero check passes exactly when the device path is valid, dd is there, the capacity is known,
-- no signal comes before a read, and the repeated dd reads the first chunk and each chunk at a sampled
-- offset without an error as bytes that are all zero; reads that give no byte count among these.
pub verify_sampled_zero_check_iff :
    (s : Station) (device : String)
    → (passed (verify_sampled_zero_check s device) ≡ true) ↔ IsSampledZero s device
verify_sampled_zero_check_iff s device = (
  λ h.
      let (valid, tool, started, drive) = sampled-tests s device h in
      drive-IsSampledZero s device (capacity_of_drive s) refl valid tool started drive,
  λ z.
      unfold verify_sampled_zero_check sample_drive in
      rw (z.valid, z.tool, z.started, z.known, not)
        (AllReadZero-sample_zeros s z.capacity _ 0 0 (0 ∷ offsets_of s z.capacity) z.zeros),
)

empty_sample :
    (s : Station) (capacity read offset : ℕ)
    → ((bs o : ℕ) → s.dd read 0 bs o ≡ ended 0 [] "")
    → read_sample s capacity read offset ≡ ok []
unfolding read_sample run_dd_read_with_retry attempts_from bytes_of classify
empty_sample s capacity read offset h =
    let rounds : s.retries + 1 ≡ suc s.retries = omega arith in
    rw (rounds, h (actual_bs s capacity offset) offset, attempts_from, bytes_of) refl

empty_AllReadZero :
    (s : Station) (capacity read : ℕ) (os : List ℕ)
    → ((n : ℕ) → s.interrupted n ≡ false)
    → ((n bs o : ℕ) → s.dd n 0 bs o ≡ ended 0 [] "")
    → AllReadZero s capacity read os
empty_AllReadZero s capacity read [] on h = tt
empty_AllReadZero s capacity read (o ∷ os) on h = (
  (on (read + 1), [], empty_sample s capacity read o (h read), tt),
  empty_AllReadZero s capacity (read + 1) os on h,
)

-- On a drive of which every read ends with status 0 and brings no byte at all, the sampled zero check
-- passes if the path is valid, dd is there, the capacity is known and no signal comes.
pub empty_reads_pass :
    (s : Station) (device : String) (capacity : ℕ)
    → validate_device_path (some device) ≡ true
    → has_dd s ≡ true
    → ((n : ℕ) → s.interrupted n ≡ false)
    → capacity_of_drive s ≡ ok capacity
    → ((n bs o : ℕ) → s.dd n 0 bs o ≡ ended 0 [] "")
    → passed (verify_sampled_zero_check s device) ≡ true
empty_reads_pass s device capacity valid tool on known h =
    (verify_sampled_zero_check_iff s device).1 (record {
      valid = valid;
      tool = tool;
      started = on 0;
      capacity = capacity;
      known = known;
      zeros = empty_AllReadZero s capacity 0 (0 ∷ offsets_of s capacity) on h;
    })
