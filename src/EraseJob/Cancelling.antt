-- ===== src/EraseJob/Cancelling.antt =====
-- How `_init_job` cancels the zero check of its bay: `cancel_check` of
-- backend/zero_check_manager.py, from its first section to its last, with the job's thread in it.
use drive_eraser.Prelude.{
  ℕ, String, Bool, true, false, ◌&&◌, ◌||◌, Option, none, some, List, [], ◌∷◌, str_eq, ◌==◌,
  if◌then◌else◌,
}
use drive_eraser.ZeroCheck.Manager.{Stage, unstarted, Worker}
use drive_eraser.ZeroCheck.Sections.{begin_cancel}
use drive_eraser.ZeroCheck.Threads.{World, Thread, signalling, cancelling, advance, seen_worker}
use drive_eraser.EraseJob.State.{Station}

-- Where the cancellation of the zero checks has come to: through, or to a section whose lock another
-- thread holds and never gives back.
pub data Cancellation : Type 0 where
  through stuck : World → Cancellation

is_unstarted : Stage → Bool
is_unstarted unstarted = true
is_unstarted _ = false

-- The worker that was seen is registered and not yet started: `thread.join` raises RuntimeError.
unfoldable pub join_raises : String → Option ℕ → List Worker → Bool
unfolding is_unstarted
join_raises bay none ws = false
join_raises bay (some token) [] = false
join_raises bay (some token) (w ∷ ws) =
    str_eq w.entry.bay bay && w.token == token && is_unstarted w.stage
    || join_raises bay (some token) ws

-- A section of the caller in `cancel_check`.
unfoldable pub own_section : Thread → World → World
own_section t w = record w { manager = (advance t w.manager).0 }

-- The last section of `cancel_check`, which writes "cancelled".
unfoldable pub write_cancelled : String → ℕ → World → Cancellation
write_cancelled bay token w =
    if w.manager.lock_kept then stuck w else through (own_section (cancelling bay token) w)

-- The event of the worker has been set; the exception of the join is caught by `_init_job`.
unfoldable pub join_worker : Station → String → Option ℕ → ℕ → World → Cancellation
join_worker station bay worker token w =
    if join_raises bay worker w.manager.running
    then through w
    else write_cancelled bay token (station.while_joined w)

-- `cancel_check` behind its first section
unfoldable pub finish_cancel : Station → String → Option ℕ → Option ℕ → World → Cancellation
finish_cancel station bay worker none w = through w
finish_cancel station bay worker (some token) w =
    join_worker station bay worker token
      (own_section (signalling bay worker (some token)) (station.before_signal w))

-- `on_wipe_starting`, which is `cancel_check`, to its end
unfoldable pub on_wipe_starting : Station → String → World → Cancellation
on_wipe_starting station bay w =
    if str_eq bay ""
    then through w
    else if w.manager.lock_kept
    then stuck w
    else finish_cancel station bay (seen_worker bay w.manager.running)
        (begin_cancel bay w.manager).1 (record w { manager = (begin_cancel bay w.manager).0 })
