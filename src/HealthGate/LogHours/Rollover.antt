-- ===== src/HealthGate/LogHours/Rollover.antt =====
-- When the corrected hours of a self-test are the true ones.
use mathlib.Core.Path.{ap}
use drive_eraser.Prelude.{
  ℕ, ◌+◌, ◌*◌, ◌/◌, ◌%◌, ◌^◌, ◌≤◌, ◌<◌, ◌≡◌, true, false, Option, some, arith, ltb, get_or,
  Bool-cases, inl, inr,
}
use drive_eraser.HealthGate.LogHours.{
  log_max_hours, distance, as_logged, rolled_over, correct_self_test_log_hours,
}

same_lap :
    (hours poh : ℕ)
    → hours ≤ poh
    → poh < hours + 64536
    → distance poh (hours % 65536 + poh / 65536 * 65536) ≤ 1000
    → hours % 65536 + poh / 65536 * 65536 ≡ hours
unfolding distance
same_lap hours poh past recent near = ground arith

rolled_over-exact :
    (hours poh : ℕ)
    → hours ≤ poh
    → poh < hours + 64536
    → 65535 ≤ poh
    → (rolled_over (hours % 65536) poh).ambiguous ≡ false
    → hours % 65536 + poh / 65536 * 65536 ≡ hours
unfolding rolled_over
rolled_over-exact hours poh past recent high clear = elim (Bool-cases (ltb log_max_hours poh)) [
  | inl above ↦ same_lap hours poh past recent (ground (arith, clear))
  | inr at ↦ ground arith
]

below :
    (log_hours poh : ℕ) (historical_poh : Option ℕ)
    → ltb poh log_max_hours ≡ true
    → correct_self_test_log_hours (some log_hours) (some poh) historical_poh
      ≡ as_logged (some log_hours)
unfolding correct_self_test_log_hours
below log_hours poh historical_poh low = rw low

above :
    (log_hours poh : ℕ) (historical_poh : Option ℕ)
    → ltb poh log_max_hours ≡ false
    → ltb log_max_hours (get_or historical_poh 0) ≡ true
    → correct_self_test_log_hours (some log_hours) (some poh) historical_poh
      ≡ rolled_over log_hours poh
unfolding correct_self_test_log_hours
above log_hours poh historical_poh high seen = rw (high, seen)

-- A test that a drive finished less than 64,536 hours ago, at hours of which its log keeps the
-- lower 16 bits, gets these hours back, if the drive had more than 65,535 hours when it was first seen and
-- the result is not marked as ambiguous.
pub correct_self_test_log_hours-exact :
    (hours poh : ℕ) (historical_poh : Option ℕ)
    → hours ≤ poh
    → poh < hours + 64536
    → 65535 < get_or historical_poh 0
    → (correct_self_test_log_hours (some (hours % 2 ^ 16)) (some poh) historical_poh).ambiguous
      ≡ false
    → (correct_self_test_log_hours
        (some (hours % 2 ^ 16))
        (some poh)
        historical_poh).corrected_hours
      ≡ some hours
unfolding rolled_over
correct_self_test_log_hours-exact hours poh historical past recent seen clear =
    elim (Bool-cases (ltb poh log_max_hours)) [
      | inl low ↦
          let kept : hours % 65536 ≡ hours = ground arith in
          rw (below (hours % 2 ^ 16) poh historical low) (ap some kept)
      | inr high ↦
          let rolled = above (hours % 2 ^ 16) poh historical high (ground arith) in
          rw rolled
            (ap some (rolled_over-exact hours poh past recent (ground arith) (rw rolled at clear)))
    ]
