-- ===== src/Sampled/Retry.antt =====
-- `_run_blockdev_getsize64` and `_run_dd_read_with_retry` of backend/crypto_verification.py: a command
-- is repeated until an attempt succeeds, and the last error text tells a detached drive from the rest.
-- What the attempts come to is a parameter; the waits between them are left out.
pub mod Told
use Prim.Native.String.{◌++◌}
use drive_eraser.Prelude.{
  ℕ, zero, suc, ◌+◌, ◌-◌, ◌*◌, String, Bool, true, false, Option, none, some, List, [], ◌∷◌, ◌==◌,
  any, codes, contains, lower, strip, if◌then◌else◌,
}
use drive_eraser.Verification.Nvme.Field.{is_digit}

-- A value, or the error text.
pub data Try (A : Type 0) : Type 0 where
  good : A → Try A
  bad : String → Try A

-- What an attempt at `blockdev --getsize64` comes to. The exit status of a killed process is negative;
-- any number but 0 stands for it. An exception other than TimeoutExpired, as where sudo cannot be
-- started, leaves `_run_blockdev_getsize64` for its caller, and is not among them.
pub data Sizing : Type 0 where
  overdue : Sizing
  sized : (code : ℕ) → (stdout stderr : String) → Sizing

-- What an attempt at `dd` comes to, its error text decoded.
pub data Reading : Type 0 where
  overdue : Reading
  raised : (message : String) → Reading
  ended : (code : ℕ) → (output : List ℕ) → (stderr : String) → Reading

digits_from : ℕ → List ℕ → Option ℕ
unfolding is_digit
digits_from n [] = some n
digits_from n (c ∷ cs) =
    let rest = digits_from (n * 10 + (c - b'0')) cs in if is_digit c then rest else none

-- `int(text)` of an unsigned decimal, which is what blockdev prints; the signs and underscores that
-- `int` admits besides are no number here.
digits_value : List ℕ → Option ℕ
unfolding digits_from
digits_value [] = none
digits_value (c ∷ cs) = digits_from 0 (c ∷ cs)

unfoldable pub parse_int : String → Option ℕ
unfolding digits_value
parse_int text = digits_value (codes text)

capacity_output : String → Option ℕ → Try ℕ
capacity_output stdout (some n) = good n
capacity_output stdout none = bad ("Invalid capacity output: " ++ stdout)

unfoldable pub capacity_of : Sizing → Try ℕ
unfolding capacity_output
capacity_of overdue = bad "Timed out after 60s"
capacity_of (sized code stdout stderr) =
    if code == 0 then capacity_output stdout (parse_int (strip stdout)) else bad stderr

unfoldable pub bytes_of : Reading → Try (List ℕ)
bytes_of overdue = bad "Timed out after 60s"
bytes_of (raised message) = bad message
bytes_of (ended code output stderr) = if code == 0 then good output else bad stderr

-- The loop over the attempts: the first value, or the error text of the last attempt.
unfoldable pub attempts_from :
    {A : Type 0} → (ℕ → Try A) → (left attempt : ℕ) → (last_stderr : String) → Try A
attempts_from try zero attempt last_stderr = bad last_stderr
attempts_from try (suc left) attempt last_stderr = elim (try attempt) [
  | good a ↦ good a
  | bad stderr ↦ attempts_from try left (attempt + 1) stderr
]

-- `any(indicator.lower() in last_stderr.lower() for indicator in detached_indicators)`
unfoldable pub is_detached : List String → String → Bool
is_detached indicators stderr = any (λ ind. contains (lower ind) (lower stderr)) indicators

abbrev pub blockdev_indicators : List String
blockdev_indicators =
    "ioctl error" ∷ "Inappropriate ioctl" ∷ "No such device" ∷ "No such file or directory" ∷ []

abbrev pub dd_indicators : List String
dd_indicators =
    "No such device" ∷ "No such file or directory" ∷ "Input/output error"
    ∷ "Transport endpoint is not connected" ∷ []

-- The value, or the error code with the last error text.
pub data Result (A : Type 0) : Type 0 where
  ok : A → Result A
  error : (code details : String) → Result A

unfoldable pub classify : {A : Type 0} → List String → String → Try A → Result A
classify indicators other (good a) = ok a
classify indicators other (bad stderr) =
    error (if is_detached indicators stderr then "drive_detached_post_wipe" else other) stderr

-- The number is `retries`.
unfoldable pub run_blockdev_getsize64 : (ℕ → Sizing) → ℕ → Result ℕ
run_blockdev_getsize64 run retries =
    classify blockdev_indicators "secondary_capacity_check_failed"
      (attempts_from (λ attempt. capacity_of (run attempt)) (retries + 1) 0 "")

unfoldable pub run_dd_read_with_retry : (ℕ → Reading) → ℕ → Result (List ℕ)
run_dd_read_with_retry run retries =
    classify dd_indicators "secondary_sampled_read_failed"
      (attempts_from (λ attempt. bytes_of (run attempt)) (retries + 1) 0 "")
