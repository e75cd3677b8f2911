-- ===== src/ZeroCheck/Sections.antt =====
-- The sections of backend/zero_check_manager.py that run under the manager's lock.
use drive_eraser.Prelude.{
  ℕ, ◌+◌, ◌-◌, String, Bool, true, false, ◌||◌, Option, none, some, List, [], ◌∷◌, ◌++◌, ◌==◌, max,
  get_or, is_some, if◌then◌else◌,
}
use drive_eraser.ZeroCheck.Manager.{
  completed, failed, Status, base_status, Entry, unstarted, Worker, Manager, assign, queue_has,
  running_has, drop_queued, drop_running,
}

-- a new semaphore with the limit that was asked for
unfoldable pub new_semaphore : Manager → Manager
new_semaphore m = record m {
  sem = m.sem + 1;
  permits = λ s. if s == m.sem + 1 then m.max_concurrency else m.permits s;
  capacity = m.max_concurrency;
}

-- `if not self._running`: the semaphore is made anew
unfoldable pub renew_if_idle : List Worker → Manager → Manager
renew_if_idle [] m = new_semaphore m
renew_if_idle (w ∷ ws) m = m

-- `set_concurrency`
unfoldable pub set_concurrency : ℕ → Manager → Manager
set_concurrency n m = renew_if_idle m.running (record m { max_concurrency = max 1 n })

-- `_next_generation`
unfoldable pub next_generation : String → Manager → Manager
next_generation bay m = record m {
  counter = m.counter + 1;
  generations = assign m.generations bay (some (m.counter + 1));
}

-- `_set_status`
unfoldable pub set_status : String → (Status → Status) → Manager → Manager
set_status bay update m = record m {
  status = assign m.status bay (some (update (get_or (m.status bay) base_status)));
}

abbrev pub is_current : Option ℕ → ℕ → Bool
is_current none token = false
is_current (some g) token = g == token

-- `_set_status_if_current`
unfoldable pub set_status_if_current : String → ℕ → (Status → Status) → Manager → Manager
set_status_if_current bay token update m =
    if is_current (m.generations bay) token then set_status bay update m else m

-- `start_check`, its section: the new entry's generation token, if the bay is not busy already. If
-- it is, `_get_status` is called under the lock, and waits there for the lock, which can be held only
-- once (`threading.Lock`).
unfoldable pub enqueue : Entry → Manager → Manager × Option ℕ
enqueue e m =
    if running_has e.bay m.running || queue_has e.bay m.queue
    then (record m { lock_kept = true }, none)
    else (next_generation e.bay (record m { queue = m.queue ++ e ∷ [] }), some (m.counter + 1))

abbrev pub is_terminal : Option Status → Bool
is_terminal none = false
is_terminal (some s) = elim s.phase [ completed ↦ true | failed ↦ true | _ ↦ false ]

-- `cancel_check`, its section: the token under which "cancelled" is written, if there is something
-- to cancel
unfoldable pub begin_cancel : String → Manager → Manager × Option ℕ
begin_cancel bay m =
    if is_terminal (m.status bay)
    then (m, none)
    else let m' = record m { queue = drop_queued bay m.queue } in
      if running_has bay m.running || is_some (m.status bay)
      then (next_generation bay m', some (m.counter + 1))
      else (m', none)

-- `clear_state`, its section
unfoldable pub begin_clear : String → Manager → Manager
begin_clear bay m =
    next_generation bay
      (record m { status = assign m.status bay none; queue = drop_queued bay m.queue })

unfoldable pub acquire : Manager → Manager
acquire m = record m { permits = λ s. if s == m.sem then m.permits s - 1 else m.permits s }

-- `release` of a semaphore
unfoldable pub release : ℕ → Manager → Manager
release sem m = record m { permits = λ s. if s == sem then m.permits s + 1 else m.permits s }

-- What one round of `_process_queue` does: it stops, it passes over an entry, or it registers a
-- worker, whose bay and token it has in hand.
pub data Taken : Type 0 where
  stop skip : Taken
  launched : String → ℕ → Taken

unfoldable pub launch : Entry → Option ℕ → Manager → Manager × Taken
launch e none m = (m, skip)
launch e (some token) m = (
  record (acquire m) {
    running =
        record { entry = e; token = token; sem = m.sem; cancelled = false; stage = unstarted }
        ∷ m.running;
  },
  launched e.bay token,
)

-- Behind `popleft`. An entry that is passed over gives its permit back at once.
unfoldable pub take_head : Entry → Manager → Manager × Taken
take_head e m = if running_has e.bay m.running then (m, skip) else launch e (m.generations e.bay) m

unfoldable pub take_from : List Entry → Manager → Manager × Taken
take_from [] m = (m, stop)
take_from (e ∷ es) m =
    if m.permits m.sem == 0 then (m, stop) else take_head e (record m { queue = es })

-- the section of one round of `_process_queue`
unfoldable pub take_next : Manager → Manager × Taken
take_next m = take_from m.queue m

-- the section of the worker's `finally`
unfoldable pub retire : String → Manager → Manager
retire bay m =
    let m' = record m { running = drop_running bay m.running } in
    if m.capacity == m.max_concurrency then m' else renew_if_idle m'.running m'
