-- ===== src/ZeroCheck/Slots/Calm.antt =====
-- The calls and sections that keep the semaphore and release no permit.
use drive_eraser.Prelude.{
  ℕ, String, ◌≡◌, refl, true, Option, none, some, List, [], ◌∷◌, arith, All, Bool-cases, inl, inr,
  ◌==◌, if◌then◌else◌, ◌∙◌,
}
use drive_eraser.Device.{validate_device_path}
use drive_eraser.ZeroCheck.Manager.{
  Status, Manager, Worker, Entry, Stage, unstarted, testing, proceeding, finishing, reporting,
}
use drive_eraser.ZeroCheck.Sections.{
  Taken, stop, skip, launched, set_status, set_status_if_current, next_generation, enqueue,
  begin_cancel, begin_clear, acquire, launch, take_head, take_from, take_next,
}
use drive_eraser.ZeroCheck.Threads.{
  Thread, queueing, draining, launching, starting, signalling, cancelling, releasing, at_stage,
  set_event, Checked, advance, work_at, start_check, cancel_check, clear_state, after_enqueue,
  after_begin_cancel, after_signal, after_take,
}
use drive_eraser.ZeroCheck.Slots.{
  Slots, set_status-Slots, set_status_if_current-Slots, enqueue-Slots, begin_cancel-Slots,
  begin_clear-Slots, map_worker-Slots,
}
use drive_eraser.ZeroCheck.Slots.Turnover.{take_next-Slots}

-- a thread that is not about to release a permit
abbrev pub IsQuiet : Thread → Type 0
IsQuiet (releasing s) = ⊥
IsQuiet _ = Unit

pub record Calm (m : Manager) (held : ℕ) (r : Manager × List Thread) : Type 0 where
  pub same_sem : r.0.sem ≡ m.sem
  pub slots : Slots r.0 held
  pub quiet : All IsQuiet r.1

sem-set_status_if_current :
    (bay : String) (token : ℕ) (u : Status → Status) (m : Manager)
    → (set_status_if_current bay token u m).sem ≡ m.sem
unfolding set_status_if_current set_status
sem-set_status_if_current bay token u m = ground arith

sem-enqueue : (e : Entry) (m : Manager) → (enqueue e m).0.sem ≡ m.sem
unfolding enqueue next_generation
sem-enqueue e m = ground arith

sem-begin_cancel : (bay : String) (m : Manager) → (begin_cancel bay m).0.sem ≡ m.sem
unfolding begin_cancel next_generation
sem-begin_cancel bay m = ground arith

sem-take_from : (es : List Entry) (m : Manager) → (take_from es m).0.sem ≡ m.sem
unfolding take_from take_head launch acquire
sem-take_from [] m = refl
sem-take_from (e ∷ es) m = ground arith

IsQuiet-after_enqueue : (e : Entry) (o : Option ℕ) → All IsQuiet (after_enqueue e o)
unfolding after_enqueue
IsQuiet-after_enqueue e none = tt
IsQuiet-after_enqueue e (some t) = (tt, tt)

IsQuiet-after_begin_cancel :
    (bay : String) (k o : Option ℕ) → All IsQuiet (after_begin_cancel bay k o)
unfolding after_begin_cancel
IsQuiet-after_begin_cancel bay k none = tt
IsQuiet-after_begin_cancel bay k (some t) = (tt, tt)

IsQuiet-after_signal : (bay : String) (o : Option ℕ) → All IsQuiet (after_signal bay o)
unfolding after_signal
IsQuiet-after_signal bay none = tt
IsQuiet-after_signal bay (some t) = (tt, tt)

IsQuiet-after_take : (t : Taken) → All IsQuiet (after_take t)
unfolding after_take
IsQuiet-after_take stop = tt
IsQuiet-after_take skip = (tt, tt)
IsQuiet-after_take (launched b t) = (tt, tt)

module _ (m : Manager) (h : ℕ) (s : Slots m h) where
  pub start_check-Calm : (e : Entry) → Calm m h (start_check e m)
  unfolding start_check
  start_check-Calm e = elim (Bool-cases (validate_device_path (some e.device))) [
    | inl valid ↦ rw valid (record {
      same_sem = sem-enqueue e m;
      slots = enqueue-Slots e m h s;
      quiet = IsQuiet-after_enqueue e _;
    })
    | inr invalid ↦ rw invalid (record {
      same_sem = unfold set_status in refl;
      slots = set_status-Slots e.bay _ m h s;
      quiet = tt;
    })
  ]

  pub cancel_check-Calm : (bay : String) → Calm m h (cancel_check bay m)
  unfolding cancel_check
  cancel_check-Calm bay = record {
    same_sem = sem-begin_cancel bay m;
    slots = begin_cancel-Slots bay m h s;
    quiet = IsQuiet-after_begin_cancel bay _ _;
  }

  pub clear_state-Calm : (bay : String) → Calm m h (clear_state bay m)
  unfolding clear_state
  clear_state-Calm bay = record {
    same_sem = unfold begin_clear next_generation in refl;
    slots = begin_clear-Slots bay m h s;
    quiet = (tt, tt);
  }

  if_current :
      (bay : String) (token : ℕ) (u : Status → Status) (ts : List Thread)
      → All IsQuiet ts
      → Calm m h (set_status_if_current bay token u m, ts)
  if_current bay token u ts q = record {
    same_sem = sem-set_status_if_current bay token u m;
    slots = set_status_if_current-Slots bay token u m h s;
    quiet = q;
  }

  staged :
      (bay : String) (stage : Stage) (ts : List Thread)
      → All IsQuiet ts
      → Calm m h (at_stage bay stage m, ts)
  unfolding at_stage
  staged bay stage ts q = record {
    same_sem = refl;
    slots = map_worker-Slots bay (λ w. record w { stage = stage }) (λ w. refl) (λ w. refl) m h s;
    quiet = q;
  }

  signalled :
      (bay : String) (k : Option ℕ) (ts : List Thread)
      → All IsQuiet ts
      → Calm m h (set_event bay k m, ts)
  unfolding set_event
  signalled bay none ts q = record { same_sem = refl; slots = s; quiet = q }
  signalled bay (some token) ts q = record {
    same_sem = refl;
    slots =
        map_worker-Slots bay (λ w. if w.token == token then record w { cancelled = true } else w)
          (λ w. ground arith) (λ w. ground arith) m h s;
    quiet = q;
  }

  pub advance-Calm : (t : Thread) → IsQuiet t → Calm m h (advance t m)
  unfolding advance
  advance-Calm (queueing bay token serial) q = if_current bay token _ _ (tt, tt)
  advance-Calm draining q = record {
    same_sem = unfold take_next in sem-take_from m.queue m;
    slots = take_next-Slots m h s;
    quiet = IsQuiet-after_take _;
  }
  advance-Calm (launching bay token) q = if_current bay token _ _ (tt, tt)
  advance-Calm (starting bay token) q = staged bay testing _ (tt, tt)
  advance-Calm (signalling bay k token) q = signalled bay k _ (IsQuiet-after_signal bay token)
  advance-Calm (cancelling bay token) q = if_current bay token _ _ tt
  advance-Calm (releasing n) q = absurd q

-- A worker that is not in its `finally` section.
abbrev pub IsBusy : Stage → Type 0
IsBusy finishing = ⊥
IsBusy _ = Unit

pub work_at-Calm :
    (stage : Stage) (o : Checked) (k : Worker) (m : Manager) (h : ℕ)
    → Slots m h
    → IsBusy stage
    → Calm m h (work_at stage o k m)
unfolding work_at
work_at-Calm unstarted o k m h s b = record { same_sem = refl; slots = s; quiet = tt }
work_at-Calm testing o k m h s b = staged m h s k.entry.bay _ [] tt
work_at-Calm proceeding o k m h s b = staged m h s k.entry.bay _ [] tt
work_at-Calm (reporting u) o k m h s b =
    let c = if_current m h s k.entry.bay k.token u [] tt in
    let d =
      staged (set_status_if_current k.entry.bay k.token u m) h c.slots k.entry.bay finishing []
        tt in
    record { same_sem = d.same_sem ∙ c.same_sem; slots = d.slots; quiet = tt }
work_at-Calm finishing o k m h s b = absurd b
