-- ===== src/HealthGate/Refused.antt =====
-- A job on a drive that fails, with the health gate as its station's gate.
use drive_eraser.Prelude.{
  ℕ, ◌≤◌, String, List, ◌≡◌, refl, true, false, not, ◌&&◌, Option, none, some, arith, get_or,
  str_eq, upper, Bool-cases, inl, inr, ◌⊎◌,
}
use drive_eraser.ZeroCheck.Threads.{World}
use drive_eraser.EraseJob.State.{Gate, Job, Station}
use drive_eraser.EraseJob.Stages.{override_allowed}
use drive_eraser.EraseJob.Finish.{run_erase_job}
use drive_eraser.EraseJob.Waiting.{Course}
use drive_eraser.EraseJob.Blocked.{HasFailed, run_erase_job-Refused}
use drive_eraser.HealthGate.DevicePath.{validate_smart_path}
use drive_eraser.HealthGate.Score.{Smart, Thresholds, Figures, failed_override}
use drive_eraser.HealthGate.Gate.{
  GatePolicy, let_through, gate_of, by_health_score, with_smart, pre_wipe_health_gate,
}
use drive_eraser.HealthGate.Cleared.{failed_drive_stopped}

-- A gate lets through with no reason, or blocks.
gate_of-cases :
    (reason : Option String) → (gate_of reason ≡ let_through) ⊎ ((gate_of reason).blocked ≡ true)
unfolding gate_of
gate_of-cases none = inl refl
gate_of-cases (some reason) = inr refl

answered :
    (o : Option String) (g : Gate)
    → some (gate_of o) ≡ some g
    → (g ≡ let_through) ⊎ (g.blocked ≡ true)
answered o g h =
    let e : gate_of o ≡ g = cc h in
    elim (gate_of-cases o) [
      | inl through ↦ inl (cc (e, through))
      | inr blocked ↦ inr (rw (← e) blocked)
    ]

module _ (f : Figures) (t : Thresholds) (p : GatePolicy) (i : Option String) (state : String)
    (g : Gate) where
  by_health_score-cases :
      (s : Smart) (score : Option ℕ) (rec : String)
      → by_health_score t p i state s score rec ≡ some g
      → (g ≡ let_through) ⊎ (g.blocked ≡ true)
  unfolding by_health_score
  by_health_score-cases s none rec h =
      elim (Bool-cases (
        p.block_destroy
        && not (p.block_failed_smart && str_eq (upper (get_or s.status "")) "FAILED"))) [
          | inl raises ↦ cc (rw (raises, by_health_score) at h)
          | inr goes_on ↦ answered _ g (rw (goes_on, by_health_score) at h)
        ]
  by_health_score-cases s (some n) rec h = answered _ g h

  with_smart-cases :
      (smart : Option Smart)
      → with_smart f t p i state smart ≡ some g
      → (g ≡ let_through) ⊎ (g.blocked ≡ true)
  unfolding with_smart
  with_smart-cases none h = answered (some "drive_not_accessible") g (unfold gate_of in h)
  with_smart-cases (some s) h = elim (Bool-cases (str_eq (get_or s.status "") "UNKNOWN")) [
    | inl unknown ↦
        answered (some "drive_not_accessible") g (unfold gate_of in rw (unknown, with_smart) at h)
    | inr known ↦ by_health_score-cases s _ _ (rw (known, with_smart) at h)
  ]

  pre_wipe_health_gate-cases :
      (smart : Option Smart) (device : String)
      → pre_wipe_health_gate f t p state smart device i ≡ some g
      → (g ≡ let_through) ⊎ (g.blocked ≡ true)
  unfolding pre_wipe_health_gate
  pre_wipe_health_gate-cases smart device h = elim (Bool-cases (validate_smart_path device)) [
    | inr invalid ↦
        answered (some "invalid_device_path") g
          (unfold gate_of in rw (invalid, pre_wipe_health_gate) at h)
    | inl valid ↦ elim (Bool-cases p.enabled) [
      | inl enabled ↦ with_smart-cases smart (ground (arith, h))
      | inr disabled ↦ answered none g (unfold gate_of in ground (arith, h))
    ]
  ]

-- A job that holds no result of the gate, on a drive that fails by its status, by the exit status of smartctl
-- or by an NVMe warning, spawns no erase command when its station's gate answers as
-- `pre_wipe_health_gate` does, the policy enables the gate, blocks drives to be destroyed with a
-- threshold of at least 5, and no override is asked for or none is allowed. It ends as failed, unless
-- it is deleted meanwhile; or else its thread waits for ever for the lock of the zero checks, and this
-- only if the lock is kept when the run begins or the other threads may come to keep it while the zero
-- check of the bay is cancelled.
pub failing_drive-Refused :
    (f : Figures) (t : Thresholds) (p : GatePolicy) (state : String) (s : Smart) (station : Station)
    (job : Job) (before : List (List String)) (z : World) (execution_rounds polling_rounds : ℕ)
    → pre_wipe_health_gate f t p state (some s) job.request.device job.request.interface_type
      ≡ some (station.pre_wipe_health_gate job.request.device job.request.interface_type)
    → job.health_gate_result ≡ none
    → p.enabled ≡ true
    → p.block_destroy ≡ true
    → 5 ≤ t.health_score_destroy
    → failed_override job.request.interface_type s ≡ true
    → job.request.health_gate_override && override_allowed station.policy ≡ false
    → Course station job before z (HasFailed before) (
        run_erase_job station execution_rounds polling_rounds
          (record { job = some job; spawned = before; zero_checks = z; waiting = false }))
failing_drive-Refused f t p state s station job before z er pr asked fresh enabled destroys low
      fails forbidden =
    let q = job.request in
    let blocked : (station.pre_wipe_health_gate q.device q.interface_type).blocked ≡ true =
      elim (pre_wipe_health_gate-cases f t p q.interface_type state _ (some s) q.device asked) [
        | inr blocked ↦ blocked
        | inl through ↦ absurd (
            failed_drive_stopped f t p state s q.device q.interface_type enabled destroys low fails
              (cc (asked, through)))
      ] in
    run_erase_job-Refused station job before z er pr (rw (fresh, get_or) blocked) forbidden
