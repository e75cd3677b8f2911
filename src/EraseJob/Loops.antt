-- ===== src/EraseJob/Loops.antt =====
-- The two loops of an erase job: waiting for the erase process, and polling the drive's firmware.
-- The number of rounds is fuel; EraseJob/Loops/Settle tells how much is enough.
pub mod Settle
use drive_eraser.Prelude.{
  ℕ, zero, suc, ◌+◌, ◌*◌, String, Bool, true, false, not, ◌&&◌, ◌||◌, Option, none, some, List, [],
  ◌∷◌, ltb, leb, str_eq, member, get_or, if◌then◌else◌,
}
use drive_eraser.Verification.Report.{Report}
use drive_eraser.Verification.Dispatch.{Checks, is_secure_erase}
use drive_eraser.EraseJob.State.{Clock}

-- How a loop ends; `unfinished` is the end of the fuel. An end is told with the round it comes in.
pub data Ended : Type 0 where
  complete interrupted timed_out exhausted : (round : ℕ) → Ended
  unfinished : Ended

-- microseconds
unfoldable pub seconds : ℕ → ℕ
seconds n = n * 1000000

-- `while process.poll() is None`
unfoldable pub wait_process : Clock → (ℕ → Bool) → (limit rounds n : ℕ) → Ended
wait_process clock alive limit zero n = unfinished
wait_process clock alive limit (suc rounds) n =
    let rest = wait_process clock alive limit rounds (n + 1) in
    if not (alive n)
    then complete n
    else if clock.interrupted n
    then interrupted n
    else if ltb (seconds limit) (clock.elapsed n)
    then timed_out n
    else rest

-- The check that a round of the polling makes, by the interface and the method as they stand.
unfoldable pub status_report : Checks → String → String → String → Option Report
status_report checks device iface method =
    if str_eq iface "sata"
    then (if is_secure_erase method
        then some (checks.sata_secure_erase device method)
        else some (checks.sata_sanitize device method))
    else if str_eq iface "nvme"
    then some (checks.nvme_sanitize device method)
    else if str_eq iface "sas"
    then some (checks.sas_block device method)
    else none

unfoldable pub is_positive : Option Report → Bool
is_positive none = false
is_positive (some r) = r.ok

abbrev pub progress_errors : List String
progress_errors =
    "sata_sanitize_still_in_progress" ∷ "sata_security_still_enabled"
    ∷ "nvme_sanitize_still_in_progress" ∷ "sas_sanitize_still_in_progress" ∷ []

-- A round that counts as an error: neither complete nor still in progress.
unfoldable pub is_erroneous : Option Report → Bool
is_erroneous none = true
is_erroneous (some r) = not r.ok && not (member (get_or r.error "") progress_errors)

abbrev pub max_consecutive_errors : ℕ
max_consecutive_errors = 15

-- `while not firmware_complete`
unfoldable pub poll_loop : Clock → (ℕ → Option Report) → (limit rounds n errors : ℕ) → Ended
poll_loop clock report limit zero n errors = unfinished
poll_loop clock report limit (suc rounds) n errors =
    let errors' = if is_erroneous (report n) then errors + 1 else 0 in
    let rest = poll_loop clock report limit rounds (n + 1) errors' in
    if clock.interrupted n
    then interrupted n
    else if ltb (seconds limit) (clock.elapsed n)
    then timed_out n
    else if is_positive (report n)
    then complete n
    else if leb max_consecutive_errors errors'
    then exhausted n
    else rest

-- `max_poll_seconds`
unfoldable pub poll_seconds : String → ℕ
poll_seconds method = if str_eq method "crypto" then 1200 else 7200
