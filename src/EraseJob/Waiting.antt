-- ===== src/EraseJob/Waiting.antt =====
-- How an erase job comes to wait for the lock of the zero checks, in `_init_job`.
use mathlib.Core.Path.{subst}
use drive_eraser.Prelude.{
  ℕ, String, ◌≡◌, ◌≢◌, refl, ◌∙◌, ◌⊎◌, inl, inr, true, false, ◌||◌, Option, none, some, List, ◌++◌,
  arith, Bool-cases, eq_iff, str_eq,
}
use drive_eraser.Device.{validate_device_path}
use drive_eraser.ZeroCheck.Manager.{Entry, Manager, running_has, queue_has}
use drive_eraser.ZeroCheck.Sections.{begin_cancel, next_generation}
use drive_eraser.ZeroCheck.Threads.{
  World, signalling, advance, set_event, seen_worker, start_check, Reach,
}
use drive_eraser.ZeroCheck.Deadlock.{repeated_start_deadlocks}
use drive_eraser.EraseJob.State.{JobRequest, Job, Run, beginning, Station, look_up}
use drive_eraser.EraseJob.State
use drive_eraser.EraseJob.Cancelling.{
  Cancellation, through, stuck, own_section, write_cancelled, join_raises, join_worker,
  finish_cancel, on_wipe_starting,
}
use drive_eraser.EraseJob.Stages.{begun, begin, init_job}
use drive_eraser.EraseJob.Finish.{continue, run_erase_job}

-- No other thread comes to keep the lock while the zero checks of a bay are cancelled.
pub record NeverTaken (station : Station) : Type 0 where
  pub signal :
      (w : World)
      → w.manager.lock_kept ≡ false
      → (station.before_signal w).manager.lock_kept ≡ false
  pub join :
      (w : World) → w.manager.lock_kept ≡ false → (station.while_joined w).manager.lock_kept ≡ false

-- A thread keeps the lock already, or one may come to keep it meanwhile.
abbrev pub LockKept : Station → World → Type 0
LockKept station z = (z.manager.lock_kept ≡ true) ⊎ ¬ NeverTaken station

-- The job has its course with `P`, or its thread waits for ever: then it is marked as running, nothing
-- was spawned, and the lock is kept.
pub data Course (station : Station) (job : Job) (before : List (List String)) (z : World)
    (P : Run → Type 0) (out : Run) : Type 0 where
  went_through : out.waiting ≡ false → P out → Course station job before z P out
  waits :
      out.waiting ≡ true
      → out.job ≡ some (record job { status = State.running })
      → out.spawned ≡ before
      → LockKept station z
      → Course station job before z P out

lock-begin_cancel : (bay : String) (m : Manager) → (begin_cancel bay m).0.lock_kept ≡ m.lock_kept
unfolding begin_cancel next_generation
lock-begin_cancel bay m = ground arith

lock-signalling :
    (bay : String) (worker token : Option ℕ) (w : World)
    → (own_section (signalling bay worker token) w).manager.lock_kept ≡ w.manager.lock_kept
unfolding own_section advance set_event
lock-signalling bay none token w = refl
lock-signalling bay (some k) token w = refl

-- Where a cancellation is stuck, the lock is kept.
abbrev NotStuck : Cancellation → Type 0
NotStuck (through w) = Unit
NotStuck (stuck w) = ⊥

write_cancelled-NotStuck :
    (bay : String) (token : ℕ) (w : World)
    → w.manager.lock_kept ≡ false
    → NotStuck (write_cancelled bay token w)
unfolding write_cancelled
write_cancelled-NotStuck bay token w free = rw free tt

module _ (station : Station) (never : NeverTaken station) (bay : String) where
  join_worker-NotStuck :
      (worker : Option ℕ) (token : ℕ) (w : World)
      → w.manager.lock_kept ≡ false
      → NotStuck (join_worker station bay worker token w)
  unfolding join_worker
  join_worker-NotStuck worker token w free =
      elim (Bool-cases (join_raises bay worker w.manager.running)) [
        | inl raises ↦ rw raises tt
        | inr joins ↦ rw joins (write_cancelled-NotStuck bay token _ (never.join w free))
      ]

  finish_cancel-NotStuck :
      (worker token : Option ℕ) (w : World)
      → w.manager.lock_kept ≡ false
      → NotStuck (finish_cancel station bay worker token w)
  unfolding finish_cancel
  finish_cancel-NotStuck worker none w free = tt
  finish_cancel-NotStuck worker (some token) w free =
      join_worker-NotStuck worker token _
        (lock-signalling bay worker (some token) _ ∙ never.signal w free)

  on_wipe_starting-NotStuck :
      (z : World) → z.manager.lock_kept ≡ false → NotStuck (on_wipe_starting station bay z)
  unfolding on_wipe_starting
  on_wipe_starting-NotStuck z free = elim (Bool-cases (str_eq bay "")) [
    | inl no_bay ↦ rw no_bay tt
    | inr in_bay ↦
        simp (in_bay, free)
          (finish_cancel-NotStuck (seen_worker bay z.manager.running) (begin_cancel bay z.manager).1
            _ (lock-begin_cancel bay z.manager ∙ free))
  ]

pub stuck-LockKept :
    (station : Station) (bay : String) (z : World) {w : World}
    → on_wipe_starting station bay z ≡ stuck w
    → LockKept station z
stuck-LockKept station bay z e = elim (Bool-cases z.manager.lock_kept) [
  | inl kept ↦ inl kept
  | inr free ↦ inr (λ never. subst NotStuck e (on_wipe_starting-NotStuck station never bay z free))
]

on_wipe_starting-kept :
    (station : Station) (bay : String) (z : World)
    → bay ≢ ""
    → z.manager.lock_kept ≡ true
    → on_wipe_starting station bay z ≡ stuck z
unfolding on_wipe_starting
on_wipe_starting-kept station bay z named kept = ground (arith, eq_iff bay "")

-- After a call of `start_check` for a bay that is queued already or has a worker, with a valid device
-- path, and whatever the zero checks have done since: a job on any bay that is not deleted before its
-- thread begins waits for ever. It stays marked as running, and no erase command is spawned.
pub run_erase_job_hangs :
    (station : Station) (job : Job) (before : List (List String)) (e : Entry) (w : World)
    {v : World} (execution_rounds polling_rounds : ℕ)
    → validate_device_path (some e.device) ≡ true
    → running_has e.bay w.manager.running || queue_has e.bay w.manager.queue ≡ true
    → Reach
        (record {
          manager = (start_check e w.manager).0;
          threads = w.threads ++ (start_check e w.manager).1;
        })
        v
    → station.deleted beginning ≡ false
    → job.request.bay ≢ ""
    → run_erase_job station execution_rounds polling_rounds
        (record { job = some job; spawned = before; zero_checks = v; waiting = false })
      ≡ record {
        job = some (record job { status = State.running });
        spawned = before;
        zero_checks = v;
        waiting = true;
      }
unfolding run_erase_job init_job look_up begin begun continue
run_erase_job_hangs station job before e w {v} er pr valid busy r there named =
    let frozen = repeated_start_deadlocks e w valid busy r in
    rw (there, on_wipe_starting-kept station job.request.bay v named frozen.lock_kept) refl
