-- ===== src/ZeroCheck/Slots/Turnover.antt =====
-- The sections that acquire and release permits and replace the semaphore.
use drive_eraser.Prelude.{
  ℕ, suc, ◌+◌, ◌<◌, String, ◌≡◌, ◌≢◌, refl, false, Option, none, some, List, [], ◌∷◌, arith, ◌==◌,
  eq_iff, str_eq, All, In, Bool-cases, ◌⊎◌, inl, inr, max,
}
use drive_eraser.ZeroCheck.Manager.{Entry, Worker, Manager, running_has, queue_has, drop_running}
use drive_eraser.ZeroCheck.Sections.{
  new_semaphore, renew_if_idle, set_concurrency, acquire, release, launch, take_head, take_from,
  take_next, retire,
}
use drive_eraser.ZeroCheck.Distinct.{
  Apart, RunningOnce-drop, Apart-drop_running, length-drop_running,
}
use drive_eraser.ZeroCheck.Slots.{Slots, new_semaphore-Slots, pop_queue-Slots}

-- The semaphore was kept, or replaced by a new one that nobody has a permit of.
abbrev pub Turnover : Manager → Manager → ℕ → Type 0
Turnover m m' held = ((m'.sem ≡ m.sem) × Slots m' held) ⊎ ((m'.sem ≡ m.sem + 1) × Slots m' 0)

pub release-Slots_same :
    (m : Manager) (held : ℕ) → Slots m (suc held) → Slots (release m.sem m) held
unfolding release
release-Slots_same m held s = record {
  balance = ground (arith, s.balance);
  owned = s.owned;
  running_once = s.running_once;
  queued_once = s.queued_once;
  apart = s.apart;
}

pub release-Slots_other :
    (n : ℕ) (m : Manager) (held : ℕ) → n ≢ m.sem → Slots m held → Slots (release n m) held
unfolding release
release-Slots_other n m held ne s = record {
  balance = ground (arith, s.balance);
  owned = s.owned;
  running_once = s.running_once;
  queued_once = s.queued_once;
  apart = s.apart;
}

Apart-cons :
    (w : Worker) (es : List Entry) (ws : List Worker)
    → queue_has w.entry.bay es ≡ false
    → Apart es ws
    → Apart es (w ∷ ws)
unfolding queue_has running_has
Apart-cons w [] ws out a = tt
Apart-cons w (e ∷ es) ws out a = (
  ground (arith, a.0, eq_iff e.bay w.entry.bay, eq_iff w.entry.bay e.bay),
  Apart-cons w es ws (ground (arith, out)) a.1,
)

owned-drop :
    (bay : String) (n : ℕ) (ws : List Worker)
    → All (λ k. k.sem ≡ n) ws
    → All (λ k. k.sem ≡ n) (drop_running bay ws)
unfolding drop_running
owned-drop bay n [] a = tt
owned-drop bay n (w ∷ ws) a = elim (Bool-cases (str_eq w.entry.bay bay)) [
  | inl gone ↦ rw gone (owned-drop bay n ws a.1)
  | inr kept ↦ rw kept (a.0, owned-drop bay n ws a.1)
]

-- The entry's bay has no worker, and a permit is free.
launch-Slots :
    (e : Entry) (token : Option ℕ) (m : Manager) (held : ℕ)
    → 0 < m.permits m.sem
    → running_has e.bay m.running ≡ false
    → queue_has e.bay m.queue ≡ false
    → Slots m held
    → Slots (launch e token m).0 held
unfolding launch acquire
launch-Slots e none m held pos idle out s = s
launch-Slots e (some token) m held pos idle out s = record {
  balance = ground (arith, s.balance);
  owned = (refl, s.owned);
  running_once = (idle, s.running_once);
  queued_once = s.queued_once;
  apart = Apart-cons _ m.queue m.running out s.apart;
}

take_head-Slots :
    (e : Entry) (m : Manager) (held : ℕ)
    → 0 < m.permits m.sem
    → queue_has e.bay m.queue ≡ false
    → Slots m held
    → Slots (take_head e m).0 held
unfolding take_head
take_head-Slots e m held pos out s = elim (Bool-cases (running_has e.bay m.running)) [
  | inl busy ↦ rw busy s
  | inr idle ↦ rw idle (launch-Slots e (m.generations e.bay) m held pos idle out s)
]

take_from-Slots :
    (es : List Entry) (m : Manager) (held : ℕ)
    → m.queue ≡ es
    → Slots m held
    → Slots (take_from es m).0 held
unfolding take_from
take_from-Slots [] m held eq s = s
take_from-Slots (e ∷ es) m held eq s = elim (Bool-cases (m.permits m.sem == 0)) [
  | inl full ↦ rw full s
  | inr free ↦ rw free (
      take_head-Slots e (record m { queue = es }) held (ground (arith, free))
        (rw eq at s.queued_once).0 (pop_queue-Slots e es m held eq s))
]

pub take_next-Slots : (m : Manager) (held : ℕ) → Slots m held → Slots (take_next m).0 held
unfolding take_next
take_next-Slots m held s = take_from-Slots m.queue m held refl s

-- A worker of the manager leaves: its permit is the one more that is held.
retire_running :
    (k : Worker) (m : Manager) (held : ℕ)
    → In k m.running
    → Slots m held
    → Slots (record m { running = drop_running k.entry.bay m.running }) (suc held)
retire_running k m held at s = record {
  balance = omega (arith, s.balance, length-drop_running k m.running s.running_once at);
  owned = owned-drop k.entry.bay m.sem m.running s.owned;
  running_once = RunningOnce-drop k.entry.bay m.running s.running_once;
  queued_once = s.queued_once;
  apart = Apart-drop_running k.entry.bay m.queue m.running s.apart;
}

renew_if_idle-Turnover :
    (ws : List Worker) (m : Manager) (held : ℕ)
    → m.running ≡ ws
    → Slots m held
    → Turnover m (renew_if_idle ws m) held
unfolding renew_if_idle
renew_if_idle-Turnover [] m held e s =
    inr (unfold new_semaphore in refl, new_semaphore-Slots m held e s.queued_once s.apart)
renew_if_idle-Turnover (w ∷ ws) m held e s = inl (refl, s)

pub set_concurrency-Turnover :
    (n : ℕ) (m : Manager) (held : ℕ) → Slots m held → Turnover m (set_concurrency n m) held
unfolding set_concurrency
set_concurrency-Turnover n m held s =
    renew_if_idle-Turnover m.running (record m { max_concurrency = max 1 n }) held refl
      (record {
        balance = s.balance;
        owned = s.owned;
        running_once = s.running_once;
        queued_once = s.queued_once;
        apart = s.apart;
      })

pub retire-Turnover :
    (k : Worker) (m : Manager) (held : ℕ)
    → In k m.running
    → Slots m held
    → Turnover m (retire k.entry.bay m) (suc held)
unfolding retire
retire-Turnover k m held at s =
    let s' = retire_running k m held at s in
    elim (Bool-cases (m.capacity == m.max_concurrency)) [
      | inl kept ↦ rw kept (inl (refl, s'))
      | inr changed ↦ rw changed (
          renew_if_idle-Turnover (drop_running k.entry.bay m.running)
            (record m { running = drop_running k.entry.bay m.running }) (suc held) refl s')
    ]
