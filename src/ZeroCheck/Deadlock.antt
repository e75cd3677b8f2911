-- ===== src/ZeroCheck/Deadlock.antt =====
-- What a second `start_check` of a bay that is queued or has a worker does.
use drive_eraser.Prelude.{ℕ, String, ◌≡◌, refl, true, false, Option, none, some, ◌++◌, ◌||◌, ◌&&◌}
use drive_eraser.Device.{validate_device_path}
use drive_eraser.ZeroCheck.Manager.{
  Entry, Worker, Manager, running_has, queue_has, Stage, unstarted, testing, proceeding, finishing,
  reporting,
}
use drive_eraser.ZeroCheck.Sections.{enqueue, release}
use drive_eraser.ZeroCheck.Threads.{
  Thread, queueing, draining, launching, starting, signalling, cancelling, releasing, World,
  Checked, at_stage, set_event, advance, work_at, work, start_check, takes_lock, stage_takes_lock,
  Step, start, cancel, clear, limit, thread, worker, Reach, here, next,
}

-- The lock is kept, and what only a section under the lock changes is as it was.
pub record Frozen (m v : Manager) : Type 0 where
  pub lock_kept : v.lock_kept ≡ true
  pub queue : v.queue ≡ m.queue
  pub status : v.status ≡ m.status
  pub generations : v.generations ≡ m.generations

module _ (m v : Manager) (f : Frozen m v) where
  set_event-Frozen : (bay : String) (token : Option ℕ) → Frozen m (set_event bay token v)
  unfolding set_event
  set_event-Frozen bay none = f
  set_event-Frozen bay (some token) = record {
    lock_kept = f.lock_kept;
    queue = f.queue;
    status = f.status;
    generations = f.generations;
  }

  at_stage-Frozen : (bay : String) (stage : Stage) → Frozen m (at_stage bay stage v)
  unfolding at_stage
  at_stage-Frozen bay stage = record {
    lock_kept = f.lock_kept;
    queue = f.queue;
    status = f.status;
    generations = f.generations;
  }

  advance-Frozen : (t : Thread) → v.lock_kept && takes_lock t ≡ false → Frozen m (advance t v).0
  unfolding advance takes_lock
  advance-Frozen (queueing b t x) free = cc (f.lock_kept, free)
  advance-Frozen draining free = cc (f.lock_kept, free)
  advance-Frozen (launching b t) free = cc (f.lock_kept, free)
  advance-Frozen (starting b t) free = at_stage-Frozen b testing
  advance-Frozen (signalling b k t) free = set_event-Frozen b k
  advance-Frozen (cancelling b t) free = cc (f.lock_kept, free)
  advance-Frozen (releasing n) free = record {
    lock_kept = unfold release in f.lock_kept;
    queue = unfold release in f.queue;
    status = unfold release in f.status;
    generations = unfold release in f.generations;
  }

  work_at-Frozen :
      (stage : Stage) (o : Checked) (k : Worker)
      → v.lock_kept && stage_takes_lock stage ≡ false
      → Frozen m (work_at stage o k v).0
  unfolding work_at stage_takes_lock
  work_at-Frozen unstarted o k free = f
  work_at-Frozen testing o k free = cc (f.lock_kept, free)
  work_at-Frozen proceeding o k free = at_stage-Frozen k.entry.bay _
  work_at-Frozen (reporting u) o k free = cc (f.lock_kept, free)
  work_at-Frozen finishing o k free = cc (f.lock_kept, free)

Step-Frozen : (m : Manager) {w v : World} → Step w v → Frozen m w.manager → Frozen m v.manager
Step-Frozen m (start e free) f = cc (f.lock_kept, free)
Step-Frozen m (cancel bay free) f = cc (f.lock_kept, free)
Step-Frozen m (clear bay free) f = cc (f.lock_kept, free)
Step-Frozen m (limit n free) f = cc (f.lock_kept, free)
Step-Frozen m {w} (thread before after t e free) f = advance-Frozen m w.manager f t free
Step-Frozen m {w} (worker o k at free) f =
    unfold work in work_at-Frozen m w.manager f k.stage o k free

Reach-Frozen : (m : Manager) {w v : World} → Reach w v → Frozen m w.manager → Frozen m v.manager
Reach-Frozen m here f = f
Reach-Frozen m (next r st) f = Step-Frozen m st (Reach-Frozen m r f)

busy-Frozen :
    (e : Entry) (m : Manager)
    → validate_device_path (some e.device) ≡ true
    → running_has e.bay m.running || queue_has e.bay m.queue ≡ true
    → Frozen m (start_check e m).0
unfolding start_check enqueue
busy-Frozen e m valid busy =
    rw (valid, busy) (record { lock_kept = refl; queue = refl; status = refl; generations = refl })

-- A call of `start_check` for a bay that is queued already or has a worker, with a valid device path,
-- never gives the lock back: from then on, whatever runs, the lock stays kept, and the queue, the
-- status and the generation of every bay stay as they were.
pub repeated_start_deadlocks :
    (e : Entry) (w : World) {v : World}
    → validate_device_path (some e.device) ≡ true
    → running_has e.bay w.manager.running || queue_has e.bay w.manager.queue ≡ true
    → Reach
        (record {
          manager = (start_check e w.manager).0;
          threads = w.threads ++ (start_check e w.manager).1;
        })
        v
    → Frozen w.manager v.manager
repeated_start_deadlocks e w valid busy r =
    Reach-Frozen w.manager r (busy-Frozen e w.manager valid busy)
