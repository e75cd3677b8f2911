-- ===== src/Sampled/Retry/Told.antt =====
-- What the repeated commands of backend/crypto_verification.py hand on.
use drive_eraser.Prelude.{
  ℕ, zero, suc, ◌+◌, ◌<◌, ◌≤◌, ◌≡◌, refl, ◌∙◌, ◌↔◌, ◌⊎◌, inl, inr, String, true, arith, lower,
  contains, In, any-In, In-any, Bool-cases, List,
}
use native.Mathlib.Decide.{dec_lt}
use drive_eraser.Sampled.Retry.{
  Try, good, bad, Sizing, Reading, attempts_from, is_detached, Result, ok, error, classify,
  dd_indicators, blockdev_indicators, run_dd_read_with_retry, run_blockdev_getsize64, bytes_of,
  capacity_of,
}

abbrev pub Fails : {A : Type 0} → (ℕ → Try A) → ℕ → Type 0
Fails try j = (s : String) × (try j ≡ bad s)

-- The attempts below the number failed.
abbrev pub FailsBelow : {A : Type 0} → (ℕ → Try A) → (first above : ℕ) → Type 0
FailsBelow try first above = (j : ℕ) → first ≤ j → j < above → Fails try j

Try-cases : {A : Type 0} (t : Try A) → ((a : A) × (t ≡ good a)) ⊎ ((s : String) × (t ≡ bad s))
Try-cases (good a) = inl (a, refl)
Try-cases (bad s) = inr (s, refl)

FailsBelow-suc :
    {A : Type 0} (try : ℕ → Try A) (first above : ℕ)
    → Fails try first
    → FailsBelow try (first + 1) above
    → FailsBelow try first above
FailsBelow-suc try first above now later j lo hi = elim (dec_lt first j) [
  | yes beyond ↦ later j (omega arith) hi
  | no same ↦ let e : first ≡ j = omega arith in rw (← e) now
]

-- The first attempt that gave a value.
abbrev pub Given : {A : Type 0} → (ℕ → Try A) → (first above : ℕ) → A → Type 0
Given try first above a =
    (k : ℕ) × (first ≤ k) × (k < above) × (try k ≡ good a) × FailsBelow try first k

attempts_from-good :
    {A : Type 0} (try : ℕ → Try A) (left first : ℕ) (s : String) (a : A)
    → attempts_from try left first s ≡ good a
    → Given try first (first + left) a
unfolding attempts_from
attempts_from-good try zero first s a h = cc h
attempts_from-good try (suc left) first s a h = elim (Try-cases (try first)) [
  | inl (b, e) ↦
      let same : good b ≡ good a = rw (e, attempts_from) at h in
      (first, omega arith, omega arith, cc (e, same), λ j lo hi. absurd (omega arith))
  | inr (t, e) ↦
      let (k, lo, hi, found, before) =
        attempts_from-good try left (first + 1) t a (rw (e, attempts_from) at h) in
      (k, omega arith, omega arith, found, FailsBelow-suc try first k (t, e) before)
]

attempts_from-fails :
    {A : Type 0} (try : ℕ → Try A) (left first : ℕ) (s t : String)
    → attempts_from try left first s ≡ bad t
    → FailsBelow try first (first + left)
unfolding attempts_from
attempts_from-fails try zero first s t h = λ j lo hi. absurd (omega arith)
attempts_from-fails try (suc left) first s t h = elim (Try-cases (try first)) [
  | inl (b, e) ↦ let never : good b ≡ bad t = rw (e, attempts_from) at h in cc never
  | inr (u, e) ↦
      let later = attempts_from-fails try left (first + 1) u t (rw (e, attempts_from) at h) in
      FailsBelow-suc try first (first + suc left) (u, e) (λ j lo hi. later j lo (omega arith))
]

attempts_from-last :
    {A : Type 0} (try : ℕ → Try A) (left first : ℕ) (s t : String)
    → attempts_from try (suc left) first s ≡ bad t
    → try (first + left) ≡ bad t
unfolding attempts_from
attempts_from-last try zero first s t h = elim (Try-cases (try first)) [
  | inl (b, e) ↦ let never : good b ≡ bad t = rw (e, attempts_from) at h in cc never
  | inr (u, e) ↦
      let same : bad u ≡ bad t = rw (e, attempts_from) at h in
      let place : first ≡ first + 0 = omega arith in rw (← place) (e ∙ same)
]
attempts_from-last try (suc left) first s t h = elim (Try-cases (try first)) [
  | inl (b, e) ↦ let never : good b ≡ bad t = rw (e, attempts_from) at h in cc never
  | inr (u, e) ↦
      let place : first + 1 + left ≡ first + suc left = omega arith in
      rw (← place) (attempts_from-last try left (first + 1) u t (rw (e, attempts_from) at h))
]

-- One of the words stands in the text, whatever the case of the letters.
abbrev pub Mentions : List String → String → Type 0
Mentions words text = (word : String) × In word words × (contains (lower word) (lower text) ≡ true)

is_detached_iff :
    (words : List String) (text : String) → (is_detached words text ≡ true) ↔ Mentions words text
unfolding is_detached
is_detached_iff words text = (λ h. any-In _ words h, λ m. In-any _ words m.0 m.1 m.2)

-- What a repeated command hands on of its attempts.
abbrev pub Told : {A : Type 0} → (ℕ → Try A) → ℕ → List String → String → Result A → Type 0
Told try retries words other (ok a) = Given try 0 (retries + 1) a
Told try retries words other (error code details) =
    FailsBelow try 0 (retries + 1)
    × (try retries ≡ bad details)
    × ((code ≡ "drive_detached_post_wipe" × Mentions words details)
        ⊎ (code ≡ other × ¬ Mentions words details))

classify-Told :
    {A : Type 0} (try : ℕ → Try A) (retries : ℕ) (words : List String) (other : String) (t : Try A)
    → attempts_from try (retries + 1) 0 "" ≡ t
    → Told try retries words other (classify words other t)
unfolding classify
classify-Told try retries words other (good a) h =
    let (k, lo, hi, found, before) = attempts_from-good try (retries + 1) 0 "" a h in
    (k, lo, omega arith, found, before)
classify-Told try retries words other (bad s) h =
    let all : FailsBelow try 0 (0 + (retries + 1)) =
      attempts_from-fails try (retries + 1) 0 "" s h in
    let rounds : retries + 1 ≡ suc retries = omega arith in
    let place : 0 + retries ≡ retries = omega arith in
    (
      λ j lo hi. all j lo (omega arith),
      rw place at (attempts_from-last try retries 0 "" s (rw rounds at h)),
      elim (Bool-cases (is_detached words s)) [
        | inl found ↦ inl (rw found, (is_detached_iff words s).0 found)
        | inr absent ↦
            inr (rw absent, λ m. let found = (is_detached_iff words s).1 m in cc (found, absent))
      ],
    )

-- The repeated dd hands on the bytes of the first attempt that exits with status 0. It gives an error
-- only if each of its `retries + 1` attempts failed; the details are then the error text of the last
-- one, and the code says that the drive is detached exactly when that text has one of the four phrases
-- for it, in letters of any case.
pub run_dd_read_with_retry-Told :
    (run : ℕ → Reading) (retries : ℕ)
    → Told
        (λ attempt. bytes_of (run attempt))
        retries
        dd_indicators
        "secondary_sampled_read_failed"
        (run_dd_read_with_retry run retries)
unfolding run_dd_read_with_retry
run_dd_read_with_retry-Told run retries = classify-Told _ retries _ _ _ refl

pub run_blockdev_getsize64-Told :
    (run : ℕ → Sizing) (retries : ℕ)
    → Told
        (λ attempt. capacity_of (run attempt))
        retries
        blockdev_indicators
        "secondary_capacity_check_failed"
        (run_blockdev_getsize64 run retries)
unfolding run_blockdev_getsize64
run_blockdev_getsize64-Told run retries = classify-Told _ retries _ _ _ refl
