-- ===== src/ZeroCheck/Threads.antt =====
-- The threads of backend/zero_check_manager.py: callers of the public methods, and workers. Each runs
-- one section after another; between two sections of one thread any other may run.
use drive_eraser.Prelude.{
  ℕ, String, ◌≡◌, Bool, true, false, ◌&&◌, Option, none, some, List, [], ◌∷◌, ◌++◌, ◌==◌, In, max,
  str_eq, if◌then◌else◌,
}
use drive_eraser.Device.{validate_device_path}
use drive_eraser.ZeroCheck.Manager.{
  queued, running, completed, failed, cancelled, Status, Entry, Stage, unstarted, testing,
  proceeding, finishing, reporting, Worker, Manager, map_worker,
}
use drive_eraser.ZeroCheck.Sections.{
  set_status, set_status_if_current, is_current, enqueue, begin_cancel, begin_clear,
  set_concurrency, take_next, Taken, stop, skip, launched, retire, release,
}

-- A caller, or a worker behind its `finally` section, by what it does next.
pub data Thread : Type 0 where
  -- `start_check` writes "queued"
  queueing : (bay : String) (token : ℕ) (serial : Option String) → Thread
  -- the next round of `_process_queue`
  draining : Thread
  -- `_process_queue` writes "running" for the worker that it registered, and then starts it
  launching starting : (bay : String) (token : ℕ) → Thread
  -- `cancel_check` and `clear_state` set the event of the worker that they saw, and join it
  signalling : (bay : String) (worker : Option ℕ) (token : Option ℕ) → Thread
  -- `cancel_check` writes "cancelled"
  cancelling : (bay : String) (token : ℕ) → Thread
  -- a worker gives its permit back
  releasing : (sem : ℕ) → Thread

pub record World : Type 0 where
  pub manager : Manager
  pub threads : List Thread

-- what `check_drive_already_zeroed` returns
pub record Outcome : Type 0 where
  pub ok : Bool
  pub result : Option String
  pub is_zeroed : Option Bool
  pub chunks_checked : ℕ
  pub bytes_checked : ℕ
  pub error : Option String
  pub details : Option String

-- It returns, or it raises an exception.
pub data Checked : Type 0 where
  returned : Outcome → Checked
  raised : (message : String) → Checked

abbrev as_cancelled : Status → Status
as_cancelled s = record s { phase = cancelled; result = some "cancelled"; is_zeroed = none }

abbrev as_outcome : Option String → Outcome → Status → Status
as_outcome serial o s = record {
  phase = if o.ok then completed else failed;
  result = o.result;
  is_zeroed = o.is_zeroed;
  chunks_checked = o.chunks_checked;
  bytes_checked = o.bytes_checked;
  serial = serial;
  error = o.error;
  details = o.details;
}

abbrev as_exception : String → Status → Status
as_exception message s = record s {
  phase = failed;
  result = some "failed";
  is_zeroed = some false;
  error = some "worker_exception";
  details = some message;
}

-- What the worker writes behind the test of its event.
unfoldable pub update_of : Worker → Checked → Status → Status
update_of w (returned o) = if w.cancelled then as_cancelled else as_outcome w.entry.serial o
update_of w (raised message) = if w.cancelled then as_cancelled else as_exception message

unfoldable pub at_stage : String → Stage → Manager → Manager
at_stage bay stage m = record m {
  running = map_worker bay (λ w. record w { stage = stage }) m.running;
}

unfoldable pub set_event : String → Option ℕ → Manager → Manager
set_event bay none m = m
set_event bay (some token) m = record m {
  running =
      map_worker bay (λ w. if w.token == token then record w { cancelled = true } else w) m.running;
}

unfoldable pub after_signal : String → Option ℕ → List Thread
after_signal bay none = []
after_signal bay (some token) = cancelling bay token ∷ []

unfoldable pub after_take : Taken → List Thread
after_take stop = []
after_take skip = draining ∷ []
after_take (launched bay token) = launching bay token ∷ []

-- The next section of a thread, and what the thread goes on to.
unfoldable pub advance : Thread → Manager → Manager × List Thread
advance (queueing bay token serial) m = (
  set_status_if_current bay token (λ s. record s { phase = queued; serial = serial }) m,
  draining ∷ [],
)
advance draining m = let (m', taken) = take_next m in (m', after_take taken)
advance (launching bay token) m =
    (set_status_if_current bay token (λ s. record s { phase = running }) m, starting bay token ∷ [])
advance (starting bay token) m = (at_stage bay testing m, draining ∷ [])
advance (signalling bay worker token) m = (set_event bay worker m, after_signal bay token)
advance (cancelling bay token) m =
    (set_status_if_current bay token (λ s. record (as_cancelled s) { error = none }) m, [])
advance (releasing sem) m = (release sem m, draining ∷ [])

unfoldable pub work_at : Stage → Checked → Worker → Manager → Manager × List Thread
work_at unstarted o w m = (m, [])
work_at testing o w m = (
  at_stage w.entry.bay
      (if is_current (m.generations w.entry.bay) w.token then proceeding else finishing) m,
  [],
)
work_at proceeding o w m = (at_stage w.entry.bay (reporting (update_of w o)) m, [])
work_at (reporting update) o w m =
    (at_stage w.entry.bay finishing (set_status_if_current w.entry.bay w.token update m), [])
work_at finishing o w m = (retire w.entry.bay m, releasing w.sem ∷ [])

-- The next section of a worker, with the outcome that its check has if it is made there.
unfoldable pub work : Checked → Worker → Manager → Manager × List Thread
work o w = work_at w.stage o w

unfoldable pub invalid_path : Status → Status
invalid_path s = record s {
  phase = failed;
  result = some "failed";
  is_zeroed = some false;
  error = some "invalid_device_path";
  details = some "Device path validation failed";
}

unfoldable pub after_enqueue : Entry → Option ℕ → List Thread
after_enqueue e none = []
after_enqueue e (some token) = queueing e.bay token e.serial ∷ []

-- `start_check`, `cancel_check` and `clear_state` up to the end of their section
unfoldable pub start_check : Entry → Manager → Manager × List Thread
start_check e m =
    if validate_device_path (some e.device)
    then (let (m', token) = enqueue e m in (m', after_enqueue e token))
    else (set_status e.bay invalid_path m, [])

unfoldable pub seen_worker : String → List Worker → Option ℕ
seen_worker bay [] = none
seen_worker bay (w ∷ ws) = if str_eq w.entry.bay bay then some w.token else seen_worker bay ws

unfoldable pub after_begin_cancel : String → Option ℕ → Option ℕ → List Thread
after_begin_cancel bay worker none = []
after_begin_cancel bay worker (some token) = signalling bay worker (some token) ∷ []

unfoldable pub cancel_check : String → Manager → Manager × List Thread
cancel_check bay m =
    let (m', token) = begin_cancel bay m in
    (m', after_begin_cancel bay (seen_worker bay m.running) token)

unfoldable pub clear_state : String → Manager → Manager × List Thread
clear_state bay m = (begin_clear bay m, signalling bay (seen_worker bay m.running) none ∷ [])

-- `__init__`
unfoldable pub new_manager : ℕ → Manager
new_manager n = record {
  max_concurrency = max 1 n;
  sem = 0;
  capacity = max 1 n;
  permits = λ s. max 1 n;
  queue = [];
  running = [];
  status = λ bay. none;
  generations = λ bay. none;
  counter = 0;
  lock_kept = false;
}

abbrev pub initial : ℕ → World
initial n = record { manager = new_manager n; threads = [] }

-- The sections that take the lock. The others are the start of a thread, the setting of an event,
-- the release of a permit, and the check of the drive itself.
unfoldable pub takes_lock : Thread → Bool
takes_lock (starting bay token) = false
takes_lock (signalling bay worker token) = false
takes_lock (releasing sem) = false
takes_lock _ = true

unfoldable pub stage_takes_lock : Stage → Bool
stage_takes_lock unstarted = false
stage_takes_lock proceeding = false
stage_takes_lock _ = true

-- What may happen next: a call of a public method, a section of a thread, or a section of a worker.
-- Where the lock is kept, no section that takes it can run.
pub data Step (w : World) : World → Type 0 where
  start :
      (e : Entry)
      → w.manager.lock_kept ≡ false
      → Step w (record {
        manager = (start_check e w.manager).0;
        threads = w.threads ++ (start_check e w.manager).1;
      })
  cancel :
      (bay : String)
      → w.manager.lock_kept ≡ false
      → Step w (record {
        manager = (cancel_check bay w.manager).0;
        threads = w.threads ++ (cancel_check bay w.manager).1;
      })
  clear :
      (bay : String)
      → w.manager.lock_kept ≡ false
      → Step w (record {
        manager = (clear_state bay w.manager).0;
        threads = w.threads ++ (clear_state bay w.manager).1;
      })
  limit :
      (n : ℕ)
      → w.manager.lock_kept ≡ false
      → Step w (record w { manager = set_concurrency n w.manager })
  thread :
      (before after : List Thread) (t : Thread)
      → w.threads ≡ before ++ t ∷ after
      → w.manager.lock_kept && takes_lock t ≡ false
      → Step w (record {
        manager = (advance t w.manager).0;
        threads = before ++ (advance t w.manager).1 ++ after;
      })
  worker :
      (o : Checked) (k : Worker)
      → In k w.manager.running
      → w.manager.lock_kept && stage_takes_lock k.stage ≡ false
      → Step w (record {
        manager = (work o k w.manager).0;
        threads = w.threads ++ (work o k w.manager).1;
      })

pub data Reach (w : World) : World → Type 0 where
  here : Reach w w
  next : {u v : World} → Reach w u → Step u v → Reach w v
