-- ===== src/Sampled/Probe/Evidence.antt =====
-- The dispatcher of backend/verification.py with the sampled checks in place of its interface to them.
use drive_eraser.Prelude.{
  String, ◌≡◌, ◌≢◌, refl, inl, inr, Bool, true, false, Option, none, some, arith, Bool-cases,
  eq_iff, member,
}
use drive_eraser.Verification.Dispatch.{Checks, Modes, secondary_mode, verification_for_method}
use drive_eraser.Verification.Dispatch.Attested.{Secondary, verification_for_method-Attested}
use drive_eraser.Sampled.Station.{Station}
use drive_eraser.Sampled.Zeros.{
  Sampling, refused, nonzero_at, all_zero, verify_sampled_zero_check, passed,
}
use drive_eraser.Sampled.Zeros.Clean.{IsSampledZero, verify_sampled_zero_check_iff}
use drive_eraser.Sampled.Hashes.{
  Digest, Before, Comparison, halted, partial_wipe, changed, was_zero, unchanged, attested,
}
use drive_eraser.Sampled.Hashes.Replaced.{IsReplaced, verify_crypto_hash_comparison-IsReplaced}
use drive_eraser.Sampled.Probe.{
  probe_of_sampling, probe_of_comparison, is_skipped, selected_mode, is_captured, by_before,
  verify_crypto_probe, with_samples,
}

-- The bytes of the drive bear the erase out: against the state from before, or as zeros.
pub data Evidence (digest : Digest) (s : Station) (device : String) (before : Option Before)
    : Type 0 where
  compared_with :
      (b : Before)
      → before ≡ some b
      → b.ok ≡ true
      → IsReplaced digest s device b
      → Evidence digest s device before
  sampled_as_zero :
      is_captured before ≡ false → IsSampledZero s device → Evidence digest s device before

sampling-passed : (r : Sampling) → (probe_of_sampling r).ok ≡ true → passed r ≡ true
unfolding probe_of_sampling passed
sampling-passed (refused e) h = cc h
sampling-passed (nonzero_at offset total) h = cc h
sampling-passed (all_zero total chunks) h = refl

comparison-attested : (r : Comparison) → (probe_of_comparison r).ok ≡ true → attested r ≡ true
unfolding probe_of_comparison attested
comparison-attested (halted status e) h = cc h
comparison-attested (partial_wipe offset) h = cc h
comparison-attested changed h = refl
comparison-attested was_zero h = refl
comparison-attested unchanged h = cc h

not_skipped :
    (mode : String) → is_skipped mode ≡ false → (mode ≢ "disabled") × (mode ≢ "controller_only")
unfolding is_skipped member
not_skipped mode h = (
  λ e. ground (arith, eq_iff mode "disabled"),
  λ e. ground (arith, eq_iff mode "controller_only"),
)

module _ (digest : Digest) (s : Station) (device : String) where
  zero_evidence :
      (probe_of_sampling (verify_sampled_zero_check s device)).ok ≡ true → IsSampledZero s device
  zero_evidence h = (verify_sampled_zero_check_iff s device).0 (sampling-passed _ h)

  by_before-Evidence :
      (before : Option Before)
      → (by_before digest s device before).ok ≡ true
      → Evidence digest s device before
  unfolding by_before is_captured
  by_before-Evidence none h = sampled_as_zero refl (zero_evidence h)
  by_before-Evidence (some b) h = elim (Bool-cases b.ok) [
    | inl yes_captured ↦ compared_with b refl yes_captured (
        verify_crypto_hash_comparison-IsReplaced digest s device b
          (comparison-attested _ (ground arith)))
    | inr not_captured ↦ sampled_as_zero not_captured (zero_evidence (ground arith))
  ]

-- Where the policy does not turn the secondary check off, a positive verification of an erase has its
-- evidence in the bytes of the drive: the comparison with the state from before attests it, if one was
-- captured, and else the sampled zero check passes. The mode of the policy is normalised once by the
-- dispatcher and once more by the probe; neither result is one that skips.
pub verification_for_method-Evidence :
    (digest : Digest) (s : Station) (before : Option Before) (checks : Checks) (device : String)
    (interface_type method : Option String) (modes : Modes) (execution_ok : Bool)
    → is_skipped (secondary_mode modes) ≡ false
    → is_skipped (selected_mode (some (secondary_mode modes))) ≡ false
    → (verification_for_method
        (with_samples digest s before checks)
        device
        interface_type
        method
        modes
        execution_ok
        (is_captured before)).ok
      ≡ true
    → Evidence digest s device before
verification_for_method-Evidence digest s before checks device i m modes x once twice h =
    let (valid, first, second) =
      verification_for_method-Attested (with_samples digest s before checks) device i m modes x
        (is_captured before) h in
    by_secondary second
  where
    probed :
        (verify_crypto_probe digest s device (some (secondary_mode modes)) before).ok ≡ true
        → Evidence digest s device before
    probed p =
        by_before-Evidence digest s device before (unfold verify_crypto_probe in ground arith)

    by_secondary :
        Secondary (with_samples digest s before checks) device modes (is_captured before)
        → Evidence digest s device before
    by_secondary second = elim (Bool-cases (is_captured before)) [
      | inl yes_captured ↦ probed (unfold with_samples in second.compared yes_captured)
      | inr not_captured ↦ sampled_as_zero not_captured (
          zero_evidence digest s device (
            unfold with_samples in
            second.sampled not_captured (not_skipped _ once).0 (not_skipped _ once).1))
    ]
