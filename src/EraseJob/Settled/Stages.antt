-- ===== src/EraseJob/Settled/Stages.antt =====
-- The stages of an erase job before its verification, each from an open run on.
use drive_eraser.Prelude.{
  ℕ, suc, ◌*◌, ◌<◌, String, ◌≡◌, ◌≢◌, refl, ap, ◌∙◌, ◌⊎◌, inl, inr, Bool, true, false, not, ◌&&◌,
  ◌||◌, List, ◌∷◌, arith, Bool-cases,
}
use drive_eraser.Verification.Dispatch.{is_crypto_or_block, is_secure_erase}
use drive_eraser.EraseCommand.{Prepared, ready, refused}
use drive_eraser.EraseJob.State.{
  Gate, Job, Run, overriding, blocking, storing, spawning, stopping, polling, Attempt, returned,
  raised, Station,
}
use drive_eraser.EraseJob.Loops.{Ended, complete, timed_out, exhausted, unfinished, poll_seconds}
use drive_eraser.EraseJob.Loops.Settle.{
  Paced, wait_process_settles, wait_process_persists, poll_loop_settles,
}
use drive_eraser.EraseJob.Stages.{
  override_allowed, pass_gate, store_before, choose_command, log_opened, prepared,
  get_erase_timeout, execution_of, after_wait, spawned_as, after_polling, poll_firmware_completion,
}
use drive_eraser.EraseJob.Rules.{Holds, ends-Holds, goes_on-Holds, waiting-update}
use drive_eraser.EraseJob.Settled.{
  Settled, Open, failed-Settled, interrupted-Settled, update-Open, look_up-Open,
}

abbrev pub LetThrough : Station → Job → Gate → Type 0
LetThrough station job gate =
    gate.blocked ≡ false
    ⊎ (job.request.health_gate_override ≡ true) × (override_allowed station.policy ≡ true)

module _ (station : Station) (job : Job) (before : List (List String)) (kept : Bool) where
  -- the stages, each from an open run on
  pub after_wait-Holds :
      (command : List String) (e : Ended) (r : Run)
      → e ≢ unfinished
      → ((k : ℕ) → e ≢ exhausted k)
      → (Open station job before kept) (command ∷ before) r
      → Holds
          (Settled station job before)
          (λ x r'.
            (x ≡ execution_of station job.request.method command)
            × (Open station job before kept) (command ∷ before) r')
          (after_wait station job.request.method command e r)
  unfolding after_wait
  after_wait-Holds command (complete n) r h g o = goes_on-Holds _ r (refl, o)
  after_wait-Holds command (Ended.interrupted n) r h g o =
      ends-Holds _ (interrupted-Settled station job before stopping _ r o.going)
  after_wait-Holds command (timed_out n) r h g o =
      ends-Holds _ (failed-Settled station job before _ r o.going)
  after_wait-Holds command (exhausted n) r h g o = absurd (g n refl)
  after_wait-Holds command unfinished r h g o = absurd (h refl)

  pub after_polling-Holds :
      (command : List String) (e : Ended) (r : Run)
      → e ≢ unfinished
      → (Open station job before kept) (command ∷ before) r
      → Holds
          (Settled station job before)
          (λ (x : Unit {0}) r'. (Open station job before kept) (command ∷ before) r')
          (after_polling station job.request.method e r)
  unfolding after_polling
  after_polling-Holds command (complete n) r h o = goes_on-Holds _ r o
  after_polling-Holds command (Ended.interrupted n) r h o =
      ends-Holds _ (interrupted-Settled station job before polling _ r o.going)
  after_polling-Holds command (timed_out n) r h o =
      ends-Holds _ (failed-Settled station job before _ r o.going)
  after_polling-Holds command (exhausted n) r h o =
      ends-Holds _ (failed-Settled station job before _ r o.going)
  after_polling-Holds command unfinished r h o = absurd (h refl)

  pub spawned_as-Holds :
      (rounds : ℕ) (command : List String) (a : Attempt (Unit {0})) (r : Run)
      → Paced 3 station.execution_clock
      → get_erase_timeout station job.request.method < 3 * rounds
      → (Open station job before kept) before r
      → Holds
          (Settled station job before)
          (λ x r'.
            (x ≡ execution_of station job.request.method command)
            × (Open station job before kept) (command ∷ before) r')
          (spawned_as station (suc rounds) job.request.method command a r)
  unfolding spawned_as
  spawned_as-Holds rounds command (raised m) r pace enough o =
      ends-Holds _ (failed-Settled station job before _ r o.going)
  spawned_as-Holds rounds command (returned u) r pace enough o =
      after_wait-Holds command _ _
        (wait_process_settles station.execution_clock station.process_alive
          (get_erase_timeout station job.request.method) rounds 0 pace (omega (arith, enough)))
        (wait_process_persists station.execution_clock station.process_alive
          (get_erase_timeout station job.request.method) (suc rounds) 0)
        (look_up-Open station job before spawning (record r { spawned = command ∷ r.spawned })
          (record { same = o.same; so_far = ap (λ s. command ∷ s) o.so_far; going = o.going }))

  pub poll-Holds :
      (rounds : ℕ) (command : List String) (r : Run)
      → Paced 4 station.polling_clock
      → 7200 < 4 * rounds
      → (Open station job before kept) (command ∷ before) r
      → Holds
          (Settled station job before)
          (λ (x : Unit {0}) r'. (Open station job before kept) (command ∷ before) r')
          (poll_firmware_completion station (suc rounds) job.request r)
  unfolding poll_firmware_completion
  poll-Holds rounds command r pace enough o =
      elim (Bool-cases
        (is_crypto_or_block job.request.method || is_secure_erase job.request.method)) [
          | inl firmware ↦ rw firmware (
              after_polling-Holds command _ r
                (poll_loop_settles station.polling_clock _ (poll_seconds job.request.method) rounds
                  0 0 pace (unfold poll_seconds in ground (arith, enough)))
                o)
          | inr overwriting ↦ rw overwriting (goes_on-Holds tt r o)
        ]

  pub log_opened-Holds :
      (command : List String) (a : Attempt (Unit {0})) (r : Run)
      → choose_command station job.request ≡ ready command
      → (Open station job before kept) before r
      → Holds
          (Settled station job before)
          (λ c r'.
            (choose_command station job.request ≡ ready c)
            × (Open station job before kept) before r')
          (log_opened station command a r)
  unfolding log_opened
  log_opened-Holds command (returned u) r e o = goes_on-Holds command r (e, o)
  log_opened-Holds command (raised m) r e o =
      ends-Holds _ (failed-Settled station job before _ r o.going)

  pub prepared-Holds :
      (p : Prepared) (r : Run)
      → choose_command station job.request ≡ p
      → (Open station job before kept) before r
      → Holds
          (Settled station job before)
          (λ c r'.
            (choose_command station job.request ≡ ready c)
            × (Open station job before kept) before r')
          (prepared station p r)
  unfolding prepared
  prepared-Holds (ready command) r e o = log_opened-Holds command station.open_log r e o
  prepared-Holds (refused x) r e o = ends-Holds _ (failed-Settled station job before _ r o.going)

  pub pass_gate-Holds :
      (gate : Gate) (r : Run)
      → (Open station job before kept) before r
      → Holds
          (Settled station job before)
          (λ (x : Unit {0}) r'.
            LetThrough station job gate × (Open station job before kept) before r')
          (pass_gate station job.request gate r)
  unfolding pass_gate
  pass_gate-Holds gate r o = elim (Bool-cases (not gate.blocked)) [
    | inl clear ↦ rw clear (goes_on-Holds tt r (inl (ground arith), o))
    | inr blocked ↦
        elim (Bool-cases (job.request.health_gate_override && override_allowed station.policy)) [
          | inl allowed ↦
              rw (blocked, allowed)
                (goes_on-Holds tt _
                  (inr (ground arith), update-Open station job before overriding _ r (λ j e. e) o))
          | inr forbidden ↦
              rw (blocked, forbidden)
                (ends-Holds _ (
                  failed-Settled station job before _ _
                    (waiting-update (λ j. Unit) (λ j. Unit) station blocking r _ ∙ o.going)))
        ]
  ]

pub store_before-Open :
    (station : Station) (job : Job) (before : List (List String)) (stored : Bool) (r : Run)
    → Open station job before job.has_before before r
    → Open station job before (stored || job.has_before) before (store_before station stored r)
unfolding store_before
store_before-Open station job before false r o = o
store_before-Open station job before true r o =
    update-Open station job before storing _ r (λ j (e, _). (e, refl)) o
