-- ===== src/ZeroCheck/Manager.antt =====
-- The state of a `ZeroCheckManager` of backend/zero_check_manager.py.
use drive_eraser.Prelude.{
  ℕ, String, Bool, true, false, Option, none, List, [], ◌∷◌, str_eq, if◌then◌else◌,
}

pub data Phase : Type 0 where
  not_started queued running completed failed cancelled : Phase

-- A status dictionary, without its time stamps.
pub record Status : Type 0 where
  pub phase : Phase
  pub result : Option String
  pub is_zeroed : Option Bool
  pub chunks_checked : ℕ
  pub bytes_checked : ℕ
  pub serial : Option String
  pub error : Option String
  pub details : Option String

abbrev pub base_status : Status
base_status = record {
  phase = not_started;
  result = none;
  is_zeroed = none;
  chunks_checked = 0;
  bytes_checked = 0;
  serial = none;
  error = none;
  details = none;
}

pub record Entry : Type 0 where
  pub bay : String
  pub device : String
  pub serial : Option String

-- Where a worker thread is: registered and not yet started, before the test of its token, before the
-- check of the drive, with an update of the status in hand, or before its `finally` section.
pub data Stage : Type 0 where
  unstarted testing proceeding finishing : Stage
  reporting : (Status → Status) → Stage

-- An entry of `_running` and of `_cancel_events`, which are set and removed together, and the
-- arguments of the thread. `sem` is the semaphore that was acquired for it.
pub record Worker : Type 0 where
  pub entry : Entry
  pub token : ℕ
  pub sem : ℕ
  pub cancelled : Bool
  pub stage : Stage

-- A semaphore is a number, and `permits` tells how often it can still be acquired. The `sem` at
-- hand is the last one that was made.
-- `lock_kept` tells that a thread holds the lock and never gives it back.
pub record Manager : Type 0 where
  pub max_concurrency : ℕ
  pub sem : ℕ
  pub capacity : ℕ
  pub permits : ℕ → ℕ
  pub queue : List Entry
  pub running : List Worker
  pub status : String → Option Status
  pub generations : String → Option ℕ
  pub counter : ℕ
  pub lock_kept : Bool

-- `d[key] = value` and `d.pop(key, None)`
unfoldable pub assign {ℓ} :
    {V : Type ℓ} → (String → Option V) → String → Option V → String → Option V
assign d key value other = if str_eq other key then value else d other

-- `bay in self._running`, `any(q_bay == bay for q_bay, _, _ in self._queue)`
unfoldable pub queue_has : String → List Entry → Bool
queue_has bay [] = false
queue_has bay (e ∷ es) = if str_eq e.bay bay then true else queue_has bay es

unfoldable pub running_has : String → List Worker → Bool
running_has bay [] = false
running_has bay (w ∷ ws) = if str_eq w.entry.bay bay then true else running_has bay ws

-- `deque(… if b != bay)`, and `self._running.pop(bay, None)`
unfoldable pub drop_queued : String → List Entry → List Entry
drop_queued bay [] = []
drop_queued bay (e ∷ es) =
    let rest = drop_queued bay es in if str_eq e.bay bay then rest else e ∷ rest

unfoldable pub drop_running : String → List Worker → List Worker
drop_running bay [] = []
drop_running bay (w ∷ ws) =
    let rest = drop_running bay ws in if str_eq w.entry.bay bay then rest else w ∷ rest

-- A change of the worker of a bay.
unfoldable pub map_worker : String → (Worker → Worker) → List Worker → List Worker
map_worker bay f [] = []
map_worker bay f (w ∷ ws) =
    let rest = map_worker bay f ws in if str_eq w.entry.bay bay then f w ∷ rest else w ∷ rest
