-- ===== src/ZeroCheck/Slots.antt =====
-- The accounting of permits, section by section (backend/zero_check_manager.py).
pub mod Turnover
pub mod Calm
pub mod Worlds
use drive_eraser.Prelude.{
  ℕ, zero, suc, ◌+◌, ◌-◌, ◌≤◌, ◌<◌, String, ◌≡◌, refl, sym, ap, ◌∙◌, Bool, true, false, ◌||◌,
  is_some, Option, none, some, List, [], ◌∷◌, ◌++◌, arith, ◌==◌, eq_iff, str_eq, All, In, length,
  Bool-cases, inl, inr,
}
use drive_eraser.ZeroCheck.Manager.{
  Status, Entry, Worker, Manager, running_has, queue_has, drop_running, drop_queued, map_worker,
}
use drive_eraser.ZeroCheck.Sections.{
  new_semaphore, set_concurrency, next_generation, set_status, set_status_if_current, enqueue,
  begin_cancel, begin_clear, is_current, is_terminal, acquire, release, launch, take_head,
  take_from, take_next, retire,
}
use drive_eraser.ZeroCheck.Distinct.{
  QueuedOnce, RunningOnce, Apart, QueuedOnce-append, QueuedOnce-drop, Apart-drop_queued,
  Apart-append, RunningOnce-drop, Apart-drop_running, length-drop_running, running_has-map_worker,
  RunningOnce-map_worker, Apart-map_worker, length-map_worker,
}

-- Every permit of the semaphore at hand is free, with a registered worker, or with a worker that is
-- about to give it back (`held` of them); and no bay is queued or checked twice.
pub record Slots (m : Manager) (held : ℕ) : Type 0 where
  pub balance : m.permits m.sem + length m.running + held ≡ m.capacity
  pub owned : All (λ k. k.sem ≡ m.sem) m.running
  pub running_once : RunningOnce m.running
  pub queued_once : QueuedOnce m.queue
  pub apart : Apart m.queue m.running

-- A semaphore is made only where no worker is registered, and nobody has a permit of it then.
pub new_semaphore-Slots :
    (m : Manager) (held : ℕ)
    → m.running ≡ []
    → QueuedOnce m.queue
    → Apart m.queue m.running
    → Slots (new_semaphore m) 0
unfolding new_semaphore
new_semaphore-Slots m held e q a = record {
  balance = ground (arith, ap (λ (ws : List Worker). length ws) e);
  owned = rw e tt;
  running_once = rw e tt;
  queued_once = q;
  apart = a;
}

pub set_status-Slots :
    (bay : String) (u : Status → Status) (m : Manager) (held : ℕ)
    → Slots m held
    → Slots (set_status bay u m) held
unfolding set_status
set_status-Slots bay u m held s = record {
  balance = s.balance;
  owned = s.owned;
  running_once = s.running_once;
  queued_once = s.queued_once;
  apart = s.apart;
}

pub set_status_if_current-Slots :
    (bay : String) (token : ℕ) (u : Status → Status) (m : Manager) (held : ℕ)
    → Slots m held
    → Slots (set_status_if_current bay token u m) held
unfolding set_status_if_current
set_status_if_current-Slots bay token u m held s =
    elim (Bool-cases (is_current (m.generations bay) token)) [
      | inl now ↦ rw now (set_status-Slots bay u m held s)
      | inr old ↦ rw old s
    ]

pub next_generation-Slots :
    (bay : String) (m : Manager) (held : ℕ) → Slots m held → Slots (next_generation bay m) held
unfolding next_generation
next_generation-Slots bay m held s = record {
  balance = s.balance;
  owned = s.owned;
  running_once = s.running_once;
  queued_once = s.queued_once;
  apart = s.apart;
}

drop_queued-Slots :
    (bay : String) (m : Manager) (held : ℕ)
    → Slots m held
    → Slots (record m { queue = drop_queued bay m.queue }) held
drop_queued-Slots bay m held s = record {
  balance = s.balance;
  owned = s.owned;
  running_once = s.running_once;
  queued_once = QueuedOnce-drop bay m.queue s.queued_once;
  apart = Apart-drop_queued bay m.queue m.running s.apart;
}

neither : (a b : Bool) → (a || b) ≡ false → (a ≡ false) × (b ≡ false)
neither a b h = ground arith

pub enqueue-Slots : (e : Entry) (m : Manager) (held : ℕ) → Slots m held → Slots (enqueue e m).0 held
unfolding enqueue
enqueue-Slots e m held s =
    elim (Bool-cases (running_has e.bay m.running || queue_has e.bay m.queue)) [
      | inl busy ↦ rw busy (record {
        balance = s.balance;
        owned = s.owned;
        running_once = s.running_once;
        queued_once = s.queued_once;
        apart = s.apart;
      })
      | inr idle ↦
          let (no_worker, no_entry) = neither _ _ idle in
          rw idle (
            next_generation-Slots e.bay (record m { queue = m.queue ++ e ∷ [] }) held
              (record {
                balance = s.balance;
                owned = s.owned;
                running_once = s.running_once;
                queued_once = QueuedOnce-append m.queue e s.queued_once no_entry;
                apart = Apart-append m.queue e m.running s.apart no_worker;
              }))
    ]

pub begin_cancel-Slots :
    (bay : String) (m : Manager) (held : ℕ) → Slots m held → Slots (begin_cancel bay m).0 held
unfolding begin_cancel
begin_cancel-Slots bay m held s = elim (Bool-cases (is_terminal (m.status bay))) [
  | inl done ↦ rw done s
  | inr ongoing ↦ elim (Bool-cases (running_has bay m.running || is_some (m.status bay))) [
    | inl known ↦
        rw (ongoing, known)
          (next_generation-Slots bay (record m { queue = drop_queued bay m.queue }) held
            (drop_queued-Slots bay m held s))
    | inr unknown ↦ rw (ongoing, unknown) (drop_queued-Slots bay m held s)
  ]
]

pub begin_clear-Slots :
    (bay : String) (m : Manager) (held : ℕ) → Slots m held → Slots (begin_clear bay m) held
unfolding begin_clear
begin_clear-Slots bay m held s =
    let d = drop_queued-Slots bay m held s in
    next_generation-Slots bay _ held (record {
      balance = d.balance;
      owned = d.owned;
      running_once = d.running_once;
      queued_once = d.queued_once;
      apart = d.apart;
    })

module _ (bay : String) (f : Worker → Worker) (same : (w : Worker) → (f w).entry.bay ≡ w.entry.bay)
    (same_sem : (w : Worker) → (f w).sem ≡ w.sem) where
  owned-map_worker :
      (n : ℕ) (ws : List Worker)
      → All (λ k. k.sem ≡ n) ws
      → All (λ k. k.sem ≡ n) (map_worker bay f ws)
  unfolding map_worker
  owned-map_worker n [] a = tt
  owned-map_worker n (w ∷ ws) a = elim (Bool-cases (str_eq w.entry.bay bay)) [
    | inl hit ↦ rw hit (same_sem w ∙ a.0, owned-map_worker n ws a.1)
    | inr miss ↦ rw miss (a.0, owned-map_worker n ws a.1)
  ]

  pub map_worker-Slots :
      (m : Manager) (held : ℕ)
      → Slots m held
      → Slots (record m { running = map_worker bay f m.running }) held
  map_worker-Slots m held s = record {
    balance = rw (length-map_worker bay f same m.running) s.balance;
    owned = owned-map_worker m.sem m.running s.owned;
    running_once = RunningOnce-map_worker bay f same m.running s.running_once;
    queued_once = s.queued_once;
    apart = Apart-map_worker bay f same m.queue m.running s.apart;
  }

-- Popping an entry of the queue.
pub pop_queue-Slots :
    (e : Entry) (es : List Entry) (m : Manager) (held : ℕ)
    → m.queue ≡ e ∷ es
    → Slots m held
    → Slots (record m { queue = es }) held
pop_queue-Slots e es m held eq s = record {
  balance = s.balance;
  owned = s.owned;
  running_once = s.running_once;
  queued_once = (rw eq at s.queued_once).1;
  apart = (rw eq at s.apart).1;
}
