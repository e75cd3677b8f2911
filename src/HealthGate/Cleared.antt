-- ===== src/HealthGate/Cleared.antt =====
-- What it takes to pass the health gate, and what a failed drive does there.
use drive_eraser.Prelude.{
  ℕ, ◌≤◌, min, String, ◌≡◌, ◌≢◌, refl, true, false, not, ◌&&◌, Option, none, some, arith, str_eq,
  upper, get_or, Bool-cases, inl, inr, ◌⊎◌, str_eq_ne,
}
use drive_eraser.HealthGate.DevicePath.{validate_smart_path}
use drive_eraser.HealthGate.Score.{
  Smart, Thresholds, Figures, status_of, failed_override, calculate_drive_health_score,
  get_drive_recommendation,
}
use drive_eraser.HealthGate.Gate.{
  GatePolicy, let_through, gate_of, by_health_score, with_smart, pre_wipe_health_gate,
}
use drive_eraser.HealthGate.Conditions.{Conditions, block_reason-Conditions}

-- What a drive shows that passes the enabled gate. Without a score the policy must not look at it.
pub record IsFit (f : Figures) (t : Thresholds) (p : GatePolicy) (device_state : String)
    (smart : Option Smart) (device : String) (interface_type : Option String) : Type 0 where
  pub valid : validate_smart_path device ≡ true
  pub s : Smart
  pub shown : smart ≡ some s
  pub readable : get_or s.status "" ≢ "UNKNOWN"
  pub score : ℕ
  pub scored :
      (calculate_drive_health_score f interface_type s ≡ some score) ⊎ (p.block_destroy ≡ false)
  pub conditions : Conditions t p interface_type device_state s score (
      get_drive_recommendation f t interface_type s
        (calculate_drive_health_score f interface_type s))

gate_of-through :
    (reason : Option String) → some (gate_of reason) ≡ some let_through → reason ≡ none
unfolding gate_of
gate_of-through none h = refl
gate_of-through (some reason) h = cc h

module _ (f : Figures) (t : Thresholds) (p : GatePolicy) (state device : String)
    (i : Option String) where
  scored-Conditions :
      (s : Smart) (score : Option ℕ) (rec : String)
      → by_health_score t p i state s score rec ≡ some let_through
      → (n : ℕ) × ((score ≡ some n) ⊎ (p.block_destroy ≡ false)) × Conditions t p i state s n rec
  unfolding by_health_score
  scored-Conditions s (some n) rec h =
      (n, inl refl, block_reason-Conditions t p i state s n rec (gate_of-through _ h))
  scored-Conditions s none rec h =
      elim (Bool-cases (
        p.block_destroy
        && not (p.block_failed_smart && str_eq (upper (get_or s.status "")) "FAILED"))) [
          | inl raises ↦ cc (rw (raises, by_health_score) at h)
          | inr goes_on ↦
              let c =
                block_reason-Conditions t p i state s 0 rec
                  (gate_of-through _ (rw (goes_on, by_health_score) at h)) in
              (
                0,
                inr (elim c.common.score_fine [
                  | inl spares ↦ spares
                  | inr low ↦ absurd (omega arith)
                ]),
                c,
              )
        ]

  smart-IsFit :
      (smart : Option Smart)
      → validate_smart_path device ≡ true
      → with_smart f t p i state smart ≡ some let_through
      → IsFit f t p state smart device i
  unfolding with_smart
  smart-IsFit none valid h = cc h
  smart-IsFit (some s) valid h = elim (Bool-cases (str_eq (get_or s.status "") "UNKNOWN")) [
    | inl unknown ↦ cc (rw (unknown, with_smart) at h)
    | inr known ↦
        let (score, scored, conditions) =
          scored-Conditions s (calculate_drive_health_score f i s) _
            (rw (known, with_smart) at h) in
        record {
          valid = valid;
          s = s;
          shown = refl;
          readable = str_eq_ne _ _ known;
          score = score;
          scored = scored;
          conditions = conditions;
        }
  ]

-- A drive passes the gate, where the policy enables it, only if its path is that of a SATA, SAS or NVMe
-- device, its SMART data can be read, and, each as far as the policy blocks for it, its status is not
-- failed, its score is above the threshold and the recommendation is neither to destroy nor to scrap it;
-- its pending and reallocated sectors and interface errors are within the limits; the NVMe spare is at
-- least 10 and no such warning is set; the SAS defects are within the limit, no scan was halted, no verify
-- or write error and at most nine read errors are uncorrected, and no place fails again and again; and
-- its state in sysfs is neither offline nor removed.
pub pre_wipe_health_gate-IsFit :
    (f : Figures) (t : Thresholds) (p : GatePolicy) (state : String) (smart : Option Smart)
    (device : String) (interface_type : Option String)
    → p.enabled ≡ true
    → pre_wipe_health_gate f t p state smart device interface_type ≡ some let_through
    → IsFit f t p state smart device interface_type
unfolding pre_wipe_health_gate
pre_wipe_health_gate-IsFit f t p state smart device i enabled h =
    elim (Bool-cases (validate_smart_path device)) [
      | inl valid ↦ smart-IsFit f t p state device i smart valid (ground (arith, h))
      | inr invalid ↦ absurd (ground (arith, h))
    ]

overridden-le :
    (f : Figures) (i : Option String) (s : Smart) (n : ℕ)
    → failed_override i s ≡ true
    → calculate_drive_health_score f i s ≡ some n
    → n ≤ 5
unfolding calculate_drive_health_score
overridden-le f i s n failed h = elim (Bool-cases (str_eq (status_of s) "UNKNOWN")) [
  | inl unknown ↦ cc (rw (unknown, calculate_drive_health_score) at h)
  | inr known ↦
      let capped : some (min (f.points i s) 5) ≡ some n =
        rw (known, failed, calculate_drive_health_score) at h in
      let value : min (f.points i s) 5 ≡ n = cc capped in omega arith
]

-- A drive that fails, by its status, by the exit status of smartctl or by an NVMe warning, is never let
-- through an enabled gate, if the policy blocks drives to be destroyed and their threshold is at least
-- 5, whatever its other figures are and whether or not the policy blocks for the status itself.
pub failed_drive_stopped :
    (f : Figures) (t : Thresholds) (p : GatePolicy) (state : String) (s : Smart) (device : String)
    (interface_type : Option String)
    → p.enabled ≡ true
    → p.block_destroy ≡ true
    → 5 ≤ t.health_score_destroy
    → failed_override interface_type s ≡ true
    → pre_wipe_health_gate f t p state (some s) device interface_type ≢ some let_through
failed_drive_stopped f t p state s device i enabled destroys low failed = λ h.
    let fit = pre_wipe_health_gate-IsFit f t p state (some s) device i enabled h in
    let same : s ≡ fit.s = cc fit.shown in
    let fails : failed_override i fit.s ≡ true = rw (← same) failed in
    elim fit.scored [
      | inr spares ↦ absurd (let both : true ≡ false = cc (destroys, spares) in cc both)
      | inl scored ↦
          let few = overridden-le f i fit.s fit.score fails scored in
          elim fit.conditions.common.score_fine [
            | inl spares ↦ absurd (let both : true ≡ false = cc (destroys, spares) in cc both)
            | inr above ↦ absurd (omega arith)
          ]
    ]
