-- ===== src/Sampled/Detection/Zeroed.antt =====
-- What it means that a drive is found zeroed.
use drive_eraser.Prelude.{
  ℕ, ◌+◌, ◌<◌, String, ◌≡◌, ◌≢◌, refl, ◌⊎◌, inl, inr, true, false, some, List, [], ◌∷◌, ◌==◌, arith,
  Bool-cases,
}
use drive_eraser.Device.{validate_device_path}
use drive_eraser.Sampled.Retry.{Result, ok, error}
use drive_eraser.Sampled.Station.{Station, has_dd, capacity_of_drive}
use drive_eraser.Sampled.ZoneRead.{
  ZoneResult, zone_read, zone_failed, zone_raised, run_cancellable_zone_read,
}
use drive_eraser.Sampled.ZoneRead.Calm.{is_clean}
use drive_eraser.Sampled.Detection.{
  ZonePolicy, block_size_of, Zone, zones_of, clamp, Rounds, on_zone_error, check_zones,
  check_capacity, check_drive_already_zeroed,
}

-- The round was not cancelled, and what of the zone lies on the drive is empty or was read as zeros.
abbrev pub ZoneClean : Rounds → (capacity block round : ℕ) → Zone → Type 0
ZoneClean w capacity block round z =
    (w.is_cancelled round ≡ false)
    × (((clamp capacity z).size ≡ 0)
        ⊎ (is_clean (run_cancellable_zone_read block (w.stream round (clamp capacity z))) ≡ true))

abbrev pub AllClean : Rounds → (capacity block round : ℕ) → List Zone → Type 0
AllClean w capacity block round [] = Unit
AllClean w capacity block round (z ∷ zs) =
    ZoneClean w capacity block round z × AllClean w capacity block (round + 1) zs

ZoneResult-cases :
    (r : ZoneResult) → ((n : ℕ) × (k : ℕ) × (r ≡ zone_read false n k)) ⊎ (is_clean r ≡ false)
ZoneResult-cases (zone_read false n k) = inl (n, k, refl)
ZoneResult-cases (zone_read true n k) = inr refl
ZoneResult-cases (zone_failed e) = inr refl
ZoneResult-cases (zone_raised message) = inr refl

unclean_stops :
    (w : Rounds) (capacity block round chunks bytes : ℕ) (z : Zone) (zs : List Zone)
    (r : ZoneResult)
    → run_cancellable_zone_read block (w.stream round (clamp capacity z)) ≡ r
    → is_clean r ≡ false
    → w.is_cancelled round ≡ false
    → ((clamp capacity z).size == 0) ≡ false
    → (check_zones w capacity block round chunks bytes (z ∷ zs)).is_zeroed ≢ some true
unfolding check_zones on_zone_error
unclean_stops w capacity block round chunks bytes z zs (zone_read false n k) e u on fits = cc u
unclean_stops w capacity block round chunks bytes z zs (zone_read true n k) e u on fits =
    rw (on, fits, e, check_zones) (λ h. cc h)
unclean_stops w capacity block round chunks bytes z zs (zone_failed code) e u on fits =
    rw (on, fits, e, check_zones) (λ h. ground arith)
unclean_stops w capacity block round chunks bytes z zs (zone_raised message) e u on fits =
    rw (on, fits, e, check_zones) (λ h. cc h)

check_zones-AllClean :
    (w : Rounds) (capacity block round chunks bytes : ℕ) (zs : List Zone)
    → (check_zones w capacity block round chunks bytes zs).is_zeroed ≡ some true
    → AllClean w capacity block round zs
unfolding check_zones
check_zones-AllClean w capacity block round chunks bytes [] h = tt
check_zones-AllClean w capacity block round chunks bytes (z ∷ zs) h =
    elim (Bool-cases (w.is_cancelled round)) [
      | inl stop ↦ cc (rw (stop, check_zones) at h)
      | inr on ↦ elim (Bool-cases ((clamp capacity z).size == 0)) [
        | inl outside ↦ (
          (on, inl (ground arith)),
          check_zones-AllClean w capacity block (round + 1) chunks bytes zs
              (rw (on, outside, check_zones) at h),
        )
        | inr fits ↦
            elim (ZoneResult-cases
              (run_cancellable_zone_read block (w.stream round (clamp capacity z)))) [
                | inl (n, k, e) ↦ (
                  (on, inr (rw e refl)),
                  check_zones-AllClean w capacity block (round + 1) (chunks + k) (bytes + n) zs
                      (rw (on, fits, e, check_zones) at h),
                )
                | inr unclean ↦ absurd (
                    unclean_stops w capacity block round chunks bytes z zs _ refl unclean on fits h)
              ]
      ]
    ]

-- What the answer that a drive is zeroed rests on.
pub record IsDetected (s : Station) (w : Rounds) (p : ZonePolicy) (device : String) : Type 0 where
  pub valid : validate_device_path (some device) ≡ true
  pub tool : has_dd s ≡ true
  pub started : s.interrupted 0 ≡ false
  pub capacity : ℕ
  pub known : capacity_of_drive s ≡ ok capacity
  pub some_bytes : 0 < capacity
  pub clean : AllClean w capacity (block_size_of p) 0 (zones_of p capacity)

module _ (s : Station) (w : Rounds) (p : ZonePolicy) (device : String) where
  detection-tests :
      (check_drive_already_zeroed s w p device).is_zeroed ≡ some true
      → (validate_device_path (some device) ≡ true)
        × (has_dd s ≡ true)
        × (s.interrupted 0 ≡ false)
        × ((check_capacity w p (capacity_of_drive s)).is_zeroed ≡ some true)
  unfolding check_drive_already_zeroed
  detection-tests h = ground arith

  capacity-clean :
      (r : Result ℕ)
      → (check_capacity w p r).is_zeroed ≡ some true
      → (capacity : ℕ) × (r ≡ ok capacity)
        × (0 < capacity)
        × AllClean w capacity (block_size_of p) 0 (zones_of p capacity)
  unfolding check_capacity
  capacity-clean (error code details) h = cc h
  capacity-clean (ok capacity) h = elim (Bool-cases (capacity == 0)) [
    | inl none_at_all ↦ cc (rw (none_at_all, check_capacity) at h)
    | inr some_bytes ↦ (
      capacity,
      refl,
      ground arith,
      check_zones-AllClean w capacity (block_size_of p) 0 0 0 (zones_of p capacity)
          (rw (some_bytes, check_capacity) at h),
    )
  ]

-- A drive is said to be zeroed only if its path is valid, dd is there, no signal came first, the capacity
-- is known and above 0, and of each zone of the policy, in its order, the round was not cancelled and the
-- part of the zone that lies on the drive is empty or was read to its end as zeros.
pub check_drive_already_zeroed-IsDetected :
    (s : Station) (w : Rounds) (p : ZonePolicy) (device : String)
    → (check_drive_already_zeroed s w p device).is_zeroed ≡ some true
    → IsDetected s w p device
check_drive_already_zeroed-IsDetected s w p device h =
    let (valid, tool, started, drive) = detection-tests s w p device h in
    let (capacity, known, some_bytes, clean) = capacity-clean s w p device _ drive in
    record {
      valid = valid;
      tool = tool;
      started = started;
      capacity = capacity;
      known = known;
      some_bytes = some_bytes;
      clean = clean;
    }
