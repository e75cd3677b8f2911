-- ===== src/EraseJob/Loops/Settle.antt =====
-- That the loops of an erase job come to an end, and what their ends tell.
use native.Mathlib.Decide.{dec_lt}
use drive_eraser.Prelude.{
  ℕ, zero, suc, ◌+◌, ◌*◌, ◌≤◌, ◌<◌, ◌≡◌, ◌≢◌, refl, Bool, true, Option, arith, ltb, leb, ltb→lt,
  leb→le, if◌then◌else◌, Bool-cases, inl, inr,
}
use drive_eraser.Verification.Report.{Report}
use drive_eraser.EraseJob.State.{Clock}
use drive_eraser.EraseJob.Loops.{
  Ended, complete, interrupted, timed_out, exhausted, unfinished, seconds, wait_process,
  is_positive, is_erroneous, poll_loop,
}

-- The rounds of a loop are at least that many seconds apart, as a loop that sleeps and a clock that is
-- not set back bring it about.
abbrev pub Paced : ℕ → Clock → Type 0
Paced pause clock = (n : ℕ) → seconds (pause * n) ≤ clock.elapsed n

-- Waiting for the erase process ends: with rounds that are three seconds apart or more, one round for
-- every three seconds of the time limit and two more are enough.
pub wait_process_settles :
    (clock : Clock) (alive : ℕ → Bool) (limit rounds n : ℕ)
    → Paced 3 clock
    → limit < 3 * (n + rounds)
    → wait_process clock alive limit (suc rounds) n ≢ unfinished
unfolding wait_process seconds
wait_process_settles clock alive limit zero n pace enough e = ground (arith, pace n)
wait_process_settles clock alive limit (suc rounds) n pace enough e =
    let next = wait_process_settles clock alive limit rounds (n + 1) pace (omega arith) in
    ground (arith, next)

pub wait_process_persists :
    (clock : Clock) (alive : ℕ → Bool) (limit rounds n k : ℕ)
    → wait_process clock alive limit rounds n ≢ exhausted k
unfolding wait_process
wait_process_persists clock alive limit zero n k e = cc e
wait_process_persists clock alive limit (suc rounds) n k e =
    let next = wait_process_persists clock alive limit rounds (n + 1) k in ground (arith, next)

-- Polling the firmware ends: with rounds that are four seconds apart or more, one round for every
-- four seconds of the time limit and two more are enough, whatever the drive reports.
pub poll_loop_settles :
    (clock : Clock) (report : ℕ → Option Report) (limit rounds n errors : ℕ)
    → Paced 4 clock
    → limit < 4 * (n + rounds)
    → poll_loop clock report limit (suc rounds) n errors ≢ unfinished
unfolding poll_loop seconds
poll_loop_settles clock report limit zero n errors pace enough e = ground (arith, pace n)
poll_loop_settles clock report limit (suc rounds) n errors pace enough e =
    let next =
      λ (k : ℕ). poll_loop_settles clock report limit rounds (n + 1) k pace (omega arith) in
    elim (Bool-cases (is_erroneous (report n))) [
      | inl wrong ↦ let more = next (errors + 1) in ground (arith, more, wrong)
      | inr fine ↦ let again = next 0 in ground (arith, again, fine)
    ]

-- What the end of the polling tells of the reports.
pub data Tells (clock : Clock) (report : ℕ → Option Report) (limit : ℕ) : Ended → Type 0 where
  was_complete : (k : ℕ) → is_positive (report k) ≡ true → Tells clock report limit (complete k)
  was_interrupted : (k : ℕ) → clock.interrupted k ≡ true → Tells clock report limit (interrupted k)
  was_late : (k : ℕ) → seconds limit < clock.elapsed k → Tells clock report limit (timed_out k)
  was_exhausted :
      (k : ℕ)
      → 14 ≤ k
      → ((i : ℕ) → k < i + 15 → i ≤ k → is_erroneous (report i) ≡ true)
      → Tells clock report limit (exhausted k)
  was_unfinished : Tells clock report limit unfinished

-- the rounds before `n` that are counted as errors in a row
abbrev Counted : (ℕ → Option Report) → ℕ → ℕ → Type 0
Counted report n errors =
    (errors ≤ n) × ((i : ℕ) → n ≤ i + errors → i < n → is_erroneous (report i) ≡ true)

one_more :
    (report : ℕ → Option Report) (n errors : ℕ)
    → Counted report n errors
    → is_erroneous (report n) ≡ true
    → Counted report (n + 1) (errors + 1)
one_more report n errors (le, row) wrong = (
  omega arith,
  λ i lo hi. elim (dec_lt i n) [
    | yes before ↦ row i (omega arith) before
    | no now ↦ let e : n ≡ i = omega arith in rw (← e) wrong
  ],
)

module _ (clock : Clock) (report : ℕ → Option Report) (limit : ℕ) where
  abbrev After : ℕ → ℕ → ℕ → Type 0
  After rounds n errors = Tells clock report limit (poll_loop clock report limit rounds n errors)

  round-Tells :
      (rounds n errors errors' : ℕ)
      → (if is_erroneous (report n) then errors + 1 else 0) ≡ errors'
      → Counted report (n + 1) errors'
      → After rounds (n + 1) errors'
      → After (suc rounds) n errors
  unfolding poll_loop
  round-Tells rounds n errors errors' e counted rest = elim (Bool-cases (clock.interrupted n)) [
    | inl signal ↦ rw signal (was_interrupted n signal)
    | inr calm ↦ elim (Bool-cases (ltb (seconds limit) (clock.elapsed n))) [
      | inl late ↦ rw (calm, late) (was_late n (ltb→lt _ _ late))
      | inr early ↦ elim (Bool-cases (is_positive (report n))) [
        | inl positive ↦ rw (calm, early, positive) (was_complete n positive)
        | inr negative ↦ elim (Bool-cases (leb 15 errors')) [
          | inl many ↦
              let some_rounds = leb→le _ _ many in
              rw (calm, early, negative, e, many)
                (was_exhausted n (omega (arith, counted.0, some_rounds))
                  (λ i lo hi. counted.1 i (omega (arith, some_rounds)) (omega arith)))
          | inr few ↦ rw (calm, early, negative, e, few) rest
        ]
      ]
    ]
  ]

  loop-Tells : (rounds n errors : ℕ) → Counted report n errors → After rounds n errors
  loop-Tells zero n errors counted = unfold poll_loop in was_unfinished
  loop-Tells (suc rounds) n errors counted = elim (Bool-cases (is_erroneous (report n))) [
    | inl wrong ↦
        let more = one_more report n errors counted wrong in
        round-Tells rounds n errors (errors + 1) (rw wrong refl) more
          (loop-Tells rounds (n + 1) (errors + 1) more)
    | inr fine ↦
        let none_yet : Counted report (n + 1) 0 = (omega arith, λ i lo hi. absurd (omega arith)) in
        round-Tells rounds n errors 0 (rw fine refl) none_yet (loop-Tells rounds (n + 1) 0 none_yet)
  ]

-- How the polling ends tells what it saw: if it is complete, the report of the last round is positive;
-- if it is interrupted or timed out, the signal was there or the time was over in that round; and if
-- it gives up, the reports of the last fifteen rounds were all neither positive nor in progress.
pub poll_loop-Tells :
    (clock : Clock) (report : ℕ → Option Report) (limit rounds : ℕ)
    → Tells clock report limit (poll_loop clock report limit rounds 0 0)
poll_loop-Tells clock report limit rounds =
    loop-Tells clock report limit rounds 0 0 (omega arith, λ i lo hi. absurd (omega arith))
