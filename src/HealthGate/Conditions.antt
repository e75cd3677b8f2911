-- ===== src/HealthGate/Conditions.antt =====
-- The conditions of the health gate, one by one.
use drive_eraser.Prelude.{
  ℕ, ◌≤◌, ◌<◌, String, ◌≡◌, ◌≢◌, ◌↔◌, refl, sym, is_prefix, Bool, true, false, not, ◌&&◌, Option,
  none, some, [], ◌∷◌, arith, leb, str_eq, lower, upper, contains, member, get_or, truthy,
  Bool-cases, inl, inr, ◌⊎◌, eq_iff, str_eq_ne, if◌then◌else◌,
}
use mathlib.Core.Path.{subst}
use drive_eraser.HealthGate.Score.{Smart, Thresholds, count_or_zero, has_bit}
use drive_eraser.HealthGate.Gate.{
  GatePolicy, also, is_below, is_above, common_reason, nvme_reason, gate_iface, sas_reason,
  block_reason,
}

also_iff :
    (condition : Bool) (reason : String) (found : Option String)
    → (also condition reason found ≡ none) ↔ ((condition ≡ false) × (found ≡ none))
unfolding also
also_iff true reason none = (λ h. cc h, λ h. cc h.0)
also_iff false reason none = (λ h. (refl, refl), λ h. refl)
also_iff condition reason (some earlier) = (λ h. cc h, λ h. cc h.1)

-- None of the conditions that hold for every interface
pub record CommonFine (t : Thresholds) (p : GatePolicy) (s : Smart) (score : ℕ)
    (recommendation : String) : Type 0 where
  pub smart_fine : (p.block_failed_smart ≡ false) ⊎ (upper (get_or s.status "") ≢ "FAILED")
  pub score_fine : (p.block_destroy ≡ false) ⊎ (t.health_score_destroy < score)
  pub not_destroy : (p.block_destroy ≡ false) ⊎ (recommendation ≢ "DESTROY")
  pub not_scratch : (p.block_scratch ≡ false) ⊎ (recommendation ≢ "SCRATCH")
  pub few_pending : count_or_zero s.pending_sectors ≤ p.max_pending
  pub few_reallocated : count_or_zero s.reallocated_sectors ≤ p.max_reallocated
  pub few_interface_errors : count_or_zero s.interface_errors ≤ p.max_interface_errors

and_text : (flag : Bool) (a b : String) → (flag && str_eq a b) ≡ false → (flag ≡ false) ⊎ (a ≢ b)
and_text false a b h = inl refl
and_text true a b h = inr (λ e. ground (arith, eq_iff a b))

and_le : (flag : Bool) (a b : ℕ) → (flag && leb a b) ≡ false → (flag ≡ false) ⊎ (b < a)
and_le false a b h = inl refl
and_le true a b h = inr (ground arith)

common-CommonFine :
    (t : Thresholds) (p : GatePolicy) (s : Smart) (score : ℕ) (recommendation : String)
    → common_reason t p s score recommendation ≡ none
    → CommonFine t p s score recommendation
unfolding common_reason
common-CommonFine t p s score recommendation h =
    let (interface, h6) = (also_iff _ _ _).0 h in
    let (reallocated, h5) = (also_iff _ _ _).0 h6 in
    let (pending, h4) = (also_iff _ _ _).0 h5 in
    let (scratch, h3) = (also_iff _ _ _).0 h4 in
    let (destroy, h2) = (also_iff _ _ _).0 h3 in
    let (low, h1) = (also_iff _ _ _).0 h2 in
    let (failed, h0) = (also_iff _ _ _).0 h1 in
    record {
      smart_fine = and_text p.block_failed_smart _ _ failed;
      score_fine = and_le p.block_destroy _ _ low;
      not_destroy = and_text p.block_destroy _ _ destroy;
      not_scratch = and_text p.block_scratch _ _ scratch;
      few_pending = ground arith;
      few_reallocated = ground arith;
      few_interface_errors = ground arith;
    }

pub record NvmeFine (s : Smart) : Type 0 where
  pub spare : (n : ℕ) → s.reallocated_normalized ≡ some n → 10 ≤ n
  pub reliable : has_bit (count_or_zero s.nvme_critical_warning) 4 ≡ false
  pub writable : has_bit (count_or_zero s.nvme_critical_warning) 8 ≡ false

pub record SasFine (t : Thresholds) (s : Smart) : Type 0 where
  pub few_defects : (n : ℕ) → s.sas_grown_defect_list ≡ some n → n ≤ t.sas_grown_defect_fail
  pub scanning : contains "halted" (lower (get_or s.sas_scan_status "")) ≡ false
  pub verified : count_or_zero s.sas_uncorrectable_verify_errors ≡ 0
  pub written : count_or_zero s.sas_uncorrectable_write_errors ≡ 0
  pub read : count_or_zero s.sas_uncorrectable_read_errors < 10
  pub no_sticky_lba : s.sas_sticky_lba_detected ≡ false

not_below : (o : Option ℕ) (bound : ℕ) → is_below o bound ≡ false → (n : ℕ) → o ≡ some n → bound ≤ n
unfolding is_below
not_below none bound h n e = cc e
not_below (some m) bound h n e = let same : m ≡ n = cc e in ground arith

not_above : (o : Option ℕ) (bound : ℕ) → is_above o bound ≡ false → (n : ℕ) → o ≡ some n → n ≤ bound
unfolding is_above
not_above none bound h n e = cc e
not_above (some m) bound h n e = let same : m ≡ n = cc e in ground arith

nvme-NvmeFine :
    (s : Smart) (found : Option String) → nvme_reason s found ≡ none → NvmeFine s × (found ≡ none)
unfolding nvme_reason
nvme-NvmeFine s found h =
    let (warning, h1) = (also_iff _ _ _).0 h in
    let (spare, h0) = (also_iff _ _ _).0 h1 in
    (
      record {
        spare = not_below s.reallocated_normalized 10 spare;
        reliable = ground arith;
        writable = ground arith;
      },
      h0,
    )

not_gone :
    (state : String)
    → member state ("offline" ∷ "removed" ∷ []) ≡ false
    → (state ≢ "offline") × (state ≢ "removed")
unfolding member
not_gone state h =
    (λ e. ground (arith, eq_iff state "offline"), λ e. ground (arith, eq_iff state "removed"))

not_halted :
    (o : Option String)
    → (truthy o && contains "halted" (lower (get_or o ""))) ≡ false
    → contains "halted" (lower (get_or o "")) ≡ false
unfolding contains lower is_prefix
not_halted none h = refl
not_halted (some text) h = elim (Bool-cases (str_eq text "")) [
  | inl empty ↦
      let e : text ≡ "" = (eq_iff text "").0 empty in
      subst (λ (x : String). contains "halted" (lower x) ≡ false) (sym e) refl
  | inr nonempty ↦ rw (nonempty, not) at h
]

sas-SasFine :
    (t : Thresholds) (s : Smart) (found : Option String)
    → sas_reason t s found ≡ none
    → SasFine t s × (found ≡ none)
unfolding sas_reason
sas-SasFine t s found h =
    let (sticky, h5) = (also_iff _ _ _).0 h in
    let (reads, h4) = (also_iff _ _ _).0 h5 in
    let (writes, h3) = (also_iff _ _ _).0 h4 in
    let (verifies, h2) = (also_iff _ _ _).0 h3 in
    let (halted, h1) = (also_iff _ _ _).0 h2 in
    let (grown, h0) = (also_iff _ _ _).0 h1 in
    (
      record {
        few_defects = not_above s.sas_grown_defect_list t.sas_grown_defect_fail grown;
        scanning = not_halted s.sas_scan_status halted;
        verified = ground arith;
        written = ground arith;
        read = ground arith;
        no_sticky_lba = sticky;
      },
      h0,
    )

-- What a drive shows that passes all conditions.
pub record Conditions (t : Thresholds) (p : GatePolicy) (interface_type : Option String)
    (device_state : String) (s : Smart) (score : ℕ) (recommendation : String) : Type 0 where
  pub common : CommonFine t p s score recommendation
  pub nvme : gate_iface interface_type ≡ "nvme" → NvmeFine s
  pub sas : gate_iface interface_type ≡ "sas" → SasFine t s
  pub online : (device_state ≢ "offline") × (device_state ≢ "removed")

-- A stage that is made for one interface.
staged {ℓ} :
    {P : Type ℓ} (iface name : String) (reason found : Option String)
    → (reason ≡ none → P × (found ≡ none))
    → (if str_eq iface name then reason else found) ≡ none
    → (iface ≡ name → P) × (found ≡ none)
staged iface name reason found fine h = elim (Bool-cases (str_eq iface name)) [
  | inl same ↦ let (p, rest) = fine (rw same at h) in (λ e. p, rest)
  | inr differs ↦ (λ e. absurd (str_eq_ne iface name differs e), rw differs at h)
]

pub block_reason-Conditions :
    (t : Thresholds) (p : GatePolicy) (interface_type : Option String) (device_state : String)
    (s : Smart) (score : ℕ) (recommendation : String)
    → block_reason t p interface_type device_state s score recommendation ≡ none
    → Conditions t p interface_type device_state s score recommendation
unfolding block_reason
block_reason-Conditions t p i state s score rec h =
    let (online, h2) = (also_iff _ _ _).0 h in
    let common = common_reason t p s score rec in
    let nvme = if str_eq (gate_iface i) "nvme" then nvme_reason s common else common in
    let (sas_fine, h1) =
      staged (gate_iface i) "sas" (sas_reason t s nvme) nvme (sas-SasFine t s nvme) h2 in
    let (nvme_fine, h0) =
      staged (gate_iface i) "nvme" (nvme_reason s common) common (nvme-NvmeFine s common) h1 in
    record {
      common = common-CommonFine t p s score rec h0;
      nvme = nvme_fine;
      sas = sas_fine;
      online = not_gone state online;
    }
