-- ===== src/Verification/Dispatch/Attested.antt =====
-- What a positive verification rests on.
use drive_eraser.Prelude.{
  String, ◌≡◌, ◌≢◌, Bool, true, false, Option, some, arith, eq_iff, str_eq, lower, strip, member,
  or_else, inl, inr, Bool-cases,
}
use drive_eraser.Device.{validate_device_path}
use drive_eraser.Verification.Report.{Report}
use drive_eraser.Verification.Dispatch.{
  Checks, Modes, secondary_mode, is_crypto_or_block, is_secure_erase, primary, secondary,
  with_baseline, verification_for_method,
}

-- The primary check of the method and the interface was made, and its answer is positive.
pub data Primary (c : Checks) (device iface method : String) (execution_ok : Bool) : Type 0 where
  overwritten :
      method ≡ "overwrite"
      → execution_ok ≡ true
      → (c.overwrite device).ok ≡ true
      → Primary c device iface method execution_ok
  nvme_sanitized :
      (is_crypto_or_block method ≡ true) × (iface ≡ "nvme")
      → (c.nvme_sanitize device method).ok ≡ true
      → Primary c device iface method execution_ok
  sata_sanitized :
      (is_crypto_or_block method ≡ true) × (iface ≡ "sata")
      → (c.sata_sanitize device method).ok ≡ true
      → Primary c device iface method execution_ok
  sata_erased :
      (is_secure_erase method ≡ true) × (iface ≡ "sata")
      → (c.sata_secure_erase device method).ok ≡ true
      → Primary c device iface method execution_ok
  sas_blocked :
      (method ≡ "block") × (iface ≡ "sas")
      → (c.sas_block device method).ok ≡ true
      → Primary c device iface method execution_ok

primary-Primary :
    (c : Checks) (device iface method : String) (execution_ok : Bool)
    → (primary c device iface method execution_ok).ok ≡ true
    → Primary c device iface method execution_ok
unfolding primary
primary-Primary c device iface method x h = elim (Bool-cases (str_eq method "overwrite")) [
  | inl over ↦ overwritten (ground (arith, eq_iff method "overwrite")) (ground arith) (ground arith)
  | inr other ↦ elim (Bool-cases (is_crypto_or_block method)) [
    | inl cb ↦ elim (Bool-cases (str_eq iface "nvme")) [
      | inl nvme ↦ nvme_sanitized (cb, (eq_iff iface "nvme").0 nvme) (ground arith)
      | inr no_nvme ↦ elim (Bool-cases (str_eq iface "sata")) [
        | inl sata ↦ sata_sanitized (cb, (eq_iff iface "sata").0 sata) (ground arith)
        | inr no_sata ↦
            sas_blocked (ground (arith, eq_iff method "block", eq_iff iface "sas")) (ground arith)
      ]
    ]
    | inr no_cb ↦ elim (Bool-cases (is_secure_erase method)) [
      | inl se ↦ elim (Bool-cases (str_eq iface "sata")) [
        | inl sata ↦ sata_erased (se, (eq_iff iface "sata").0 sata) (ground arith)
        | inr no_sata ↦
            sas_blocked (ground (arith, eq_iff method "block", eq_iff iface "sas")) (ground arith)
      ]
      | inr no_se ↦
          sas_blocked (ground (arith, eq_iff method "block", eq_iff iface "sas")) (ground arith)
    ]
  ]
]

-- What the secondary check has to say, by the policy and by whether a before-state was captured.
pub record Secondary (c : Checks) (device : String) (modes : Modes) (has_before : Bool)
    : Type 0 where
  pub compared : has_before ≡ true → (c.crypto_probe device (secondary_mode modes)).ok ≡ true
  pub sampled :
      has_before ≡ false
      → secondary_mode modes ≢ "disabled"
      → secondary_mode modes ≢ "controller_only"
      → (c.sampled_zero_check device).ok ≡ true

secondary-Secondary :
    (c : Checks) (device : String) (interface_type : Option String) (method : String)
    (modes : Modes) (has_before : Bool) (report : Report)
    → (secondary c device interface_type method modes has_before report).ok ≡ true
    → Secondary c device modes has_before
unfolding secondary with_baseline member
secondary-Secondary c device i m modes b report h = record {
  compared = λ e. ground arith;
  sampled = λ e n k. ground (
    arith,
    eq_iff (secondary_mode modes) "disabled",
    eq_iff (secondary_mode modes) "controller_only",
  );
}

-- A positive verification means that the device path is valid, the primary check of the method and
-- interface, as they are normalised, was made and is positive (for an overwrite the erase command had
-- succeeded too), and so is the secondary check: the comparison with the before-state, where there is
-- one, and else the sampled zero check, unless the policy turns it off.
pub verification_for_method-Attested :
    (c : Checks) (device : String) (interface_type method : Option String) (modes : Modes)
    (execution_ok has_before : Bool)
    → (verification_for_method c device interface_type method modes execution_ok has_before).ok
      ≡ true
    → (validate_device_path (some device) ≡ true)
      × Primary c device
          (lower (strip (or_else interface_type "")))
          (lower (strip (or_else method "")))
          execution_ok
      × Secondary c device modes has_before
verification_for_method-Attested c device i m modes x b h =
    let (valid, first, second) = split in
    (valid, primary-Primary c device _ _ x first, secondary-Secondary c device i _ modes b _ second)
  where
    selected : String
    selected = lower (strip (or_else m ""))

    report : Report
    report = primary c device (lower (strip (or_else i ""))) selected x

    split :
        (validate_device_path (some device) ≡ true)
        × (report.ok ≡ true)
        × ((secondary c device i selected modes b report).ok ≡ true)
    split = unfold verification_for_method in ground arith
