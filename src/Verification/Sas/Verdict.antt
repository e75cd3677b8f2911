-- ===== src/Verification/Sas/Verdict.antt =====
-- When the SAS check attests an erase.
use drive_eraser.Prelude.{
  String, ◌≡◌, ◌↔◌, ◌≢◌, true, false, arith, str_eq, strip, lower, contains, Bool-cases, inl, inr,
  In, str_eq_ne, ne-str_eq,
}
use drive_eraser.Device.{CommandResult}
use drive_eraser.Verification.Nvme.{extract_command_output}
use drive_eraser.Verification.Sata.{mentions}
use drive_eraser.Verification.Sata.Verdict.{mentions-In, In-mentions}
use drive_eraser.Verification.Sas.{failed_markers, complete_markers, block_verdict}

-- The answer of a SAS drive attests the erase.
pub record BlockDone (r : CommandResult) : Type 0 where
  pub said : strip (extract_command_output r) ≢ ""
  pub not_failed :
      (w : String) → In w failed_markers → contains w (lower (extract_command_output r)) ≡ false
  pub marker : String
  pub completes : In marker complete_markers
  pub completed : contains marker (lower (extract_command_output r)) ≡ true

block_verdict-tests :
    (method : String) (r : CommandResult)
    → ((block_verdict method r).ok ≡ true) ↔ (
        (str_eq (strip (extract_command_output r)) "" ≡ false)
        × (mentions failed_markers (lower (extract_command_output r)) ≡ false)
        × (mentions complete_markers (lower (extract_command_output r)) ≡ true))
unfolding block_verdict
block_verdict-tests method r = (λ h. ground arith, λ h. ground arith)

silent :
    (text w : String)
    → mentions failed_markers text ≡ false
    → In w failed_markers
    → contains w text ≡ false
silent text w h at = elim (Bool-cases (contains w text)) [
  | inl found ↦ let e = In-mentions failed_markers text w at found in cc (e, h)
  | inr absent ↦ absent
]

all_silent :
    (text : String)
    → ((w : String) → In w failed_markers → contains w text ≡ false)
    → mentions failed_markers text ≡ false
all_silent text h = elim (Bool-cases (mentions failed_markers text)) [
  | inl found ↦ let (w, at, e) = mentions-In failed_markers text found in cc (e, h w at)
  | inr absent ↦ absent
]

-- A SAS status attests an erase exactly when it is not blank, has none of the words of failure, and has
-- one of the words of completion, whatever it says of progress besides and whatever the exit status.
pub block_verdict_iff :
    (method : String) (r : CommandResult) → ((block_verdict method r).ok ≡ true) ↔ BlockDone r
block_verdict_iff method r = (
  λ h.
      let (said, fine, done) = (block_verdict-tests method r).0 h in
      let (marker, completes, completed) = mentions-In complete_markers _ done in
      record {
        said = str_eq_ne _ _ said;
        not_failed = λ w. silent _ w fine;
        marker = marker;
        completes = completes;
        completed = completed;
      },
  λ d. (block_verdict-tests method r).1 (
    ne-str_eq _ _ d.said,
    all_silent _ d.not_failed,
    In-mentions complete_markers _ d.marker d.completes d.completed,
  ),
)
