-- ===== src/ZeroCheck/Generations.antt =====
-- Generation tokens: what a thread began before a cancel or a removal does not show afterwards.
use drive_eraser.Prelude.{
  ℕ, ◌+◌, ◌≤◌, ◌<◌, String, ◌≡◌, refl, ap, ◌∙◌, Option, none, some, List, [], ◌∷◌, ◌++◌, arith,
  ◌==◌, ◌||◌, is_some, eq_iff, str_eq, Bool-cases, inl, inr,
}
use drive_eraser.Device.{validate_device_path}
use drive_eraser.ZeroCheck.Manager.{
  Status, Entry, Worker, Manager, running_has, queue_has, Stage, unstarted, testing, proceeding,
  finishing, reporting, assign,
}
use drive_eraser.ZeroCheck.Sections.{
  new_semaphore, renew_if_idle, set_concurrency, next_generation, set_status, set_status_if_current,
  enqueue, begin_cancel, begin_clear, acquire, release, launch, take_head, take_from, take_next,
  retire, is_terminal,
}
use drive_eraser.ZeroCheck.Threads.{
  Thread, queueing, draining, launching, starting, signalling, cancelling, releasing, World,
  Checked, at_stage, set_event, advance, work_at, work, start_check, cancel_check, clear_state,
  Step, start, cancel, clear, limit, thread, worker, Reach, here, next,
}

-- The bay has a generation newer than the token.
pub record Stale (bay : String) (token : ℕ) (m : Manager) : Type 0 where
  pub generation : ℕ
  pub at : m.generations bay ≡ some generation
  pub newer : token < generation
  pub counted : generation ≤ m.counter

-- A section that changes generations only by `_next_generation`, if at all.
abbrev pub Grows : Manager → Manager → Type 0
Grows m m' = (bay : String) (token : ℕ) → Stale bay token m → Stale bay token m'

same : (m m' : Manager) → m'.generations ≡ m.generations → m'.counter ≡ m.counter → Grows m m'
same m m' e c bay token s = record {
  generation = s.generation;
  at = ap (λ (g : String → Option ℕ). g bay) e ∙ s.at;
  newer = s.newer;
  counted = omega (arith, s.counted, c);
}

next_generation-Grows :
    (b : String) (m m' : Manager)
    → m'.generations ≡ m.generations
    → m'.counter ≡ m.counter
    → Grows m (next_generation b m')
unfolding next_generation assign
next_generation-Grows b m m' e c bay token s = elim (Bool-cases (str_eq bay b)) [
  | inl own ↦ record {
    generation = m'.counter + 1;
    at = rw own;
    newer = omega (arith, s.newer, s.counted, c);
    counted = omega arith;
  }
  | inr other ↦ record {
    generation = s.generation;
    at = rw other (ap (λ (g : String → Option ℕ). g bay) e ∙ s.at);
    newer = s.newer;
    counted = omega (arith, s.counted, c);
  }
]

-- A write under a stale token is not made.
pub Stale-write :
    (bay : String) (token : ℕ) (u : Status → Status) (m : Manager)
    → Stale bay token m
    → set_status_if_current bay token u m ≡ m
unfolding set_status_if_current
Stale-write bay token u m s = ground (arith, s.at, s.newer)

if_current-Grows :
    (b : String) (t : ℕ) (u : Status → Status) (m : Manager)
    → Grows m (set_status_if_current b t u m)
unfolding set_status_if_current set_status
if_current-Grows b t u m = same m _ (ground arith) (ground arith)

enqueue-Grows : (e : Entry) (m : Manager) → Grows m (enqueue e m).0
unfolding enqueue
enqueue-Grows e m = elim (Bool-cases (running_has e.bay m.running || queue_has e.bay m.queue)) [
  | inl busy ↦ rw busy (same m _ refl refl)
  | inr idle ↦ rw idle (next_generation-Grows e.bay m _ refl refl)
]

begin_cancel-Grows : (b : String) (m : Manager) → Grows m (begin_cancel b m).0
unfolding begin_cancel
begin_cancel-Grows b m = elim (Bool-cases (is_terminal (m.status b))) [
  | inl done ↦ rw done (same m m refl refl)
  | inr ongoing ↦ elim (Bool-cases (running_has b m.running || is_some (m.status b))) [
    | inl known ↦ rw (ongoing, known) (next_generation-Grows b m _ refl refl)
    | inr unknown ↦ rw (ongoing, unknown) (same m _ refl refl)
  ]
]

take_from-Grows : (es : List Entry) (m : Manager) → Grows m (take_from es m).0
unfolding take_from take_head launch acquire
take_from-Grows [] m = same m m refl refl
take_from-Grows (e ∷ es) m = same m _ (ground arith) (ground arith)

renew-Grows :
    (ws : List Worker) (m m' : Manager)
    → m'.generations ≡ m.generations
    → m'.counter ≡ m.counter
    → Grows m (renew_if_idle ws m')
unfolding renew_if_idle new_semaphore
renew-Grows [] m m' e c = same m _ e c
renew-Grows (w ∷ ws) m m' e c = same m _ e c

retire-Grows : (b : String) (m : Manager) → Grows m (retire b m)
unfolding retire
retire-Grows b m = elim (Bool-cases (m.capacity == m.max_concurrency)) [
  | inl kept ↦ rw kept (same m _ refl refl)
  | inr changed ↦ rw changed (renew-Grows _ m _ refl refl)
]

start_check-Grows : (e : Entry) (m : Manager) → Grows m (start_check e m).0
unfolding start_check
start_check-Grows e m = elim (Bool-cases (validate_device_path (some e.device))) [
  | inl valid ↦ rw valid (enqueue-Grows e m)
  | inr invalid ↦ rw invalid (unfold set_status in same m _ refl refl)
]

set_event-Grows : (b : String) (k : Option ℕ) (m : Manager) → Grows m (set_event b k m)
unfolding set_event
set_event-Grows b none m = same m m refl refl
set_event-Grows b (some t) m = same m _ refl refl

advance-Grows : (t : Thread) (m : Manager) → Grows m (advance t m).0
unfolding advance
advance-Grows (queueing b t x) m = if_current-Grows b t _ m
advance-Grows draining m = unfold take_next in take_from-Grows m.queue m
advance-Grows (launching b t) m = if_current-Grows b t _ m
advance-Grows (starting b t) m = unfold at_stage in same m _ refl refl
advance-Grows (signalling b k t) m = set_event-Grows b k m
advance-Grows (cancelling b t) m = if_current-Grows b t _ m
advance-Grows (releasing n) m = unfold release in same m _ refl refl

reported-Grows :
    (u : Status → Status) (k : Worker) (m : Manager)
    → Grows m (at_stage k.entry.bay finishing (set_status_if_current k.entry.bay k.token u m))
unfolding at_stage
reported-Grows u k m bay token s =
    same (set_status_if_current k.entry.bay k.token u m) _ refl refl bay token
      (if_current-Grows k.entry.bay k.token u m bay token s)

work_at-Grows :
    (stage : Stage) (o : Checked) (k : Worker) (m : Manager) → Grows m (work_at stage o k m).0
unfolding work_at
work_at-Grows unstarted o k m = same m m refl refl
work_at-Grows testing o k m = unfold at_stage in same m _ refl refl
work_at-Grows proceeding o k m = unfold at_stage in same m _ refl refl
work_at-Grows (reporting u) o k m = reported-Grows u k m
work_at-Grows finishing o k m = retire-Grows k.entry.bay m

-- A stale token stays stale, whatever happens.
pub Step-Grows : {w v : World} → Step w v → Grows w.manager v.manager
Step-Grows {w} (start e free) = start_check-Grows e w.manager
Step-Grows {w} (cancel bay free) = unfold cancel_check in begin_cancel-Grows bay w.manager
Step-Grows {w} (clear bay free) =
    unfold clear_state begin_clear in next_generation-Grows bay w.manager _ refl refl
Step-Grows {w} (limit n free) = unfold set_concurrency in renew-Grows _ w.manager _ refl refl
Step-Grows {w} (thread before after t e free) = advance-Grows t w.manager
Step-Grows {w} (worker o k at free) = unfold work in work_at-Grows k.stage o k w.manager

pub Reach-Grows : {w v : World} → Reach w v → Grows w.manager v.manager
Reach-Grows here bay token s = s
Reach-Grows (next r st) bay token s = Step-Grows st bay token (Reach-Grows r bay token s)

cancelled-Stale :
    (bay : String) (m : Manager) {c : ℕ} (token : ℕ)
    → (begin_cancel bay m).1 ≡ some c
    → token ≤ m.counter
    → Stale bay token (begin_cancel bay m).0
unfolding begin_cancel next_generation assign
cancelled-Stale bay m token e le = record {
  generation = m.counter + 1;
  at = ground (arith, e, eq_iff bay bay);
  newer = omega arith;
  counted = ground (arith, e);
}

cleared-Stale :
    (bay : String) (m : Manager) (token : ℕ)
    → token ≤ m.counter
    → Stale bay token (begin_clear bay m)
unfolding begin_clear next_generation assign
cleared-Stale bay m token le = record {
  generation = m.counter + 1;
  at = ground (arith, eq_iff bay bay);
  newer = omega arith;
  counted = omega arith;
}

-- After a cancel that found something to cancel, a worker of the bay whose check began before the
-- cancel reports nothing: whatever has run in between, writing its result leaves the manager as it
-- is.
pub cancelled_check_is_silent :
    (bay : String) (w : World) {v : World} (token c : ℕ) (u : Status → Status)
    → token ≤ w.manager.counter
    → (begin_cancel bay w.manager).1 ≡ some c
    → Reach
        (record {
          manager = (cancel_check bay w.manager).0;
          threads = w.threads ++ (cancel_check bay w.manager).1;
        })
        v
    → set_status_if_current bay token u v.manager ≡ v.manager
cancelled_check_is_silent bay w {v} token c u le found r =
    Stale-write bay token u v.manager (
      Reach-Grows r bay token (unfold cancel_check in cancelled-Stale bay w.manager token found le))

-- After the state of a bay was cleared, as when its drive is removed, a worker of the bay whose check
-- began before reports nothing: whatever has run in between, writing its result leaves the manager
-- as it is.
pub cleared_check_is_silent :
    (bay : String) (w : World) {v : World} (token : ℕ) (u : Status → Status)
    → token ≤ w.manager.counter
    → Reach
        (record {
          manager = (clear_state bay w.manager).0;
          threads = w.threads ++ (clear_state bay w.manager).1;
        })
        v
    → set_status_if_current bay token u v.manager ≡ v.manager
cleared_check_is_silent bay w {v} token u le r =
    Stale-write bay token u v.manager
      (Reach-Grows r bay token (unfold clear_state in cleared-Stale bay w.manager token le))
