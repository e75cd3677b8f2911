-- ===== src/ZeroCheck/Slots/Worlds.antt =====
-- The accounting of permits over every interleaving of the threads.
use drive_eraser.Prelude.{
  ℕ, suc, ◌+◌, ◌≤◌, ◌≡◌, refl, sym, List, [], ◌∷◌, ◌++◌, arith, ◌==◌, ==_iff, All, All-In,
  All-append, All-split, In, length, Bool-cases, inl, inr, if◌then◌else◌,
}
use drive_eraser.ZeroCheck.Manager.{
  Manager, Worker, Stage, unstarted, testing, proceeding, finishing, reporting,
}
use drive_eraser.ZeroCheck.Sections.{retire, release}
use drive_eraser.ZeroCheck.Threads.{
  Thread, queueing, draining, launching, starting, signalling, cancelling, releasing, World,
  Checked, advance, work, work_at, Step, start, cancel, clear, limit, thread, worker, Reach, here,
  next, new_manager, initial,
}
use mathlib.Core.Path.{subst}
use drive_eraser.ZeroCheck.Distinct.{QueuedOnce, RunningOnce, Apart}
use drive_eraser.ZeroCheck.Slots.{Slots}
use drive_eraser.ZeroCheck.Slots.Calm.{
  IsQuiet, Calm, start_check-Calm, cancel_check-Calm, clear_state-Calm, advance-Calm, work_at-Calm,
}
use drive_eraser.ZeroCheck.Slots.Turnover.{
  release-Slots_same, release-Slots_other, set_concurrency-Turnover, retire-Turnover,
}

-- the permits of a semaphore that are about to be given back
abbrev pub held : ℕ → List Thread → ℕ
held n [] = 0
held n (releasing s ∷ ts) = if s == n then suc (held n ts) else held n ts
held n (_ ∷ ts) = held n ts

-- No thread is about to release a semaphore that has not been made.
abbrev pub Known : ℕ → Thread → Type 0
Known n (releasing s) = s ≤ n
Known n _ = Unit

pub record Sound (w : World) : Type 0 where
  pub slots : Slots w.manager (held w.manager.sem w.threads)
  pub known : All (Known w.manager.sem) w.threads

held-append : (n : ℕ) (xs ys : List Thread) → held n (xs ++ ys) ≡ held n xs + held n ys
held-append n [] ys = omega arith
held-append n (releasing s ∷ xs) ys = ground (arith, held-append n xs ys)
held-append n (queueing b t s ∷ xs) ys = held-append n xs ys
held-append n (draining ∷ xs) ys = held-append n xs ys
held-append n (launching b t ∷ xs) ys = held-append n xs ys
held-append n (starting b t ∷ xs) ys = held-append n xs ys
held-append n (signalling b k t ∷ xs) ys = held-append n xs ys
held-append n (cancelling b t ∷ xs) ys = held-append n xs ys

-- A new semaphore: nobody is about to release it, and those of before are known.
held_new : (n m : ℕ) → m ≡ n + 1 → (ts : List Thread) → All (Known n) ts → held m ts ≡ 0
held_new n m e [] a = refl
held_new n m e (releasing s ∷ ts) a = ground (arith, held_new n m e ts a.1, a.0)
held_new n m e (queueing b t s ∷ ts) a = held_new n m e ts a.1
held_new n m e (draining ∷ ts) a = held_new n m e ts a.1
held_new n m e (launching b t ∷ ts) a = held_new n m e ts a.1
held_new n m e (starting b t ∷ ts) a = held_new n m e ts a.1
held_new n m e (signalling b k t ∷ ts) a = held_new n m e ts a.1
held_new n m e (cancelling b t ∷ ts) a = held_new n m e ts a.1

Known-new : (n m : ℕ) → m ≡ n + 1 → (ts : List Thread) → All (Known n) ts → All (Known m) ts
Known-new n m e [] a = tt
Known-new n m e (releasing s ∷ ts) a = (omega (arith, a.0), Known-new n m e ts a.1)
Known-new n m e (queueing b t s ∷ ts) a = (tt, Known-new n m e ts a.1)
Known-new n m e (draining ∷ ts) a = (tt, Known-new n m e ts a.1)
Known-new n m e (launching b t ∷ ts) a = (tt, Known-new n m e ts a.1)
Known-new n m e (starting b t ∷ ts) a = (tt, Known-new n m e ts a.1)
Known-new n m e (signalling b k t ∷ ts) a = (tt, Known-new n m e ts a.1)
Known-new n m e (cancelling b t ∷ ts) a = (tt, Known-new n m e ts a.1)

IsQuiet-held : (n : ℕ) (ts : List Thread) → All IsQuiet ts → (held n ts ≡ 0) × All (Known n) ts
IsQuiet-held n [] q = (refl, tt)
IsQuiet-held n (releasing s ∷ ts) q = absurd q.0
IsQuiet-held n (queueing b t s ∷ ts) q = let (z, k) = IsQuiet-held n ts q.1 in (z, (tt, k))
IsQuiet-held n (draining ∷ ts) q = let (z, k) = IsQuiet-held n ts q.1 in (z, (tt, k))
IsQuiet-held n (launching b t ∷ ts) q = let (z, k) = IsQuiet-held n ts q.1 in (z, (tt, k))
IsQuiet-held n (starting b t ∷ ts) q = let (z, k) = IsQuiet-held n ts q.1 in (z, (tt, k))
IsQuiet-held n (signalling b k t ∷ ts) q = let (z, l) = IsQuiet-held n ts q.1 in (z, (tt, l))
IsQuiet-held n (cancelling b t ∷ ts) q = let (z, k) = IsQuiet-held n ts q.1 in (z, (tt, k))

-- The threads of a world whose semaphore was kept.
kept :
    (m m' : Manager) (ts : List Thread)
    → m'.sem ≡ m.sem
    → Slots m' (held m.sem ts)
    → All (Known m.sem) ts
    → Sound (record { manager = m'; threads = ts })
kept m m' ts e s k = record {
  slots = subst (λ n. Slots m' (held n ts)) (sym e) s;
  known = subst (λ n. All (Known n) ts) (sym e) k;
}

replaced :
    (m m' : Manager) (ts : List Thread)
    → m'.sem ≡ m.sem + 1
    → Slots m' 0
    → All (Known m.sem) ts
    → Sound (record { manager = m'; threads = ts })
replaced m m' ts e s k = record {
  slots = rw (held_new m.sem m'.sem e ts k) s;
  known = Known-new m.sem m'.sem e ts k;
}

module _ (m : Manager) where
  Calm-call :
      (ts : List Thread) (r : Manager × List Thread)
      → All (Known m.sem) ts
      → Calm m (held m.sem ts) r
      → Sound (record { manager = r.0; threads = ts ++ r.1 })
  Calm-call ts r known c =
      let (z, k) = IsQuiet-held m.sem r.1 c.quiet in
      let same : held m.sem (ts ++ r.1) ≡ held m.sem ts = omega (arith, held-append m.sem ts r.1) in
      kept m r.0 (ts ++ r.1) c.same_sem (rw same c.slots) (All-append (Known m.sem) ts r.1 known k)

  Calm-thread :
      (before after : List Thread) (t : Thread) (r : Manager × List Thread)
      → IsQuiet t
      → All (Known m.sem) (before ++ t ∷ after)
      → Calm m (held m.sem (before ++ t ∷ after)) r
      → Sound (record { manager = r.0; threads = before ++ r.1 ++ after })
  Calm-thread before after t r q known c =
      let (z, k) = IsQuiet-held m.sem r.1 c.quiet in
      let (z', _) = IsQuiet-held m.sem (t ∷ []) (q, tt) in
      let (l, rest) = All-split (Known m.sem) before (t ∷ after) known in
      let same : held m.sem ((before ++ r.1) ++ after) ≡ held m.sem (before ++ t ∷ after) = omega (
        arith,
        held-append m.sem (before ++ r.1) after,
        held-append m.sem before r.1,
        held-append m.sem before (t ∷ after),
        held-append m.sem (t ∷ []) after,
      ) in
      kept m r.0 _ c.same_sem (rw same c.slots) (
        All-append (Known m.sem) (before ++ r.1) after (All-append (Known m.sem) before r.1 l k)
          rest.1)

  held_middle :
      (before after : List Thread) (t : Thread)
      → held m.sem (before ++ t ∷ after)
        ≡ held m.sem (t ∷ []) + held m.sem (before ++ (draining ∷ []) ++ after)
  held_middle before after t = omega (
    arith,
    held-append m.sem before (t ∷ after),
    held-append m.sem (t ∷ []) after,
    held-append m.sem (before ++ draining ∷ []) after,
    held-append m.sem before (draining ∷ []),
  )

  release-Slots : (n h : ℕ) → Slots m (held m.sem (releasing n ∷ []) + h) → Slots (release n m) h
  release-Slots n h s = elim (Bool-cases (n == m.sem)) [
    | inl same ↦
        subst (λ k. Slots (release k m) h) (sym ((==_iff n m.sem).0 same))
          (release-Slots_same m h (subst (Slots m) (ground (arith, same)) s))
    | inr other ↦
        release-Slots_other n m h (λ e. ground (arith, other, e))
          (subst (Slots m) (ground (arith, other)) s)
  ]

  released :
      (before after : List Thread) (n : ℕ)
      → All (Known m.sem) (before ++ releasing n ∷ after)
      → Slots m (held m.sem (before ++ releasing n ∷ after))
      → Sound (record { manager = release n m; threads = before ++ (draining ∷ []) ++ after })
  released before after n known s =
      let (l, rest) = All-split (Known m.sem) before (releasing n ∷ after) known in
      kept m (release n m) _ (unfold release in refl)
        (release-Slots n _ (subst (Slots m) (held_middle before after (releasing n)) s))
        (All-append (Known m.sem) (before ++ draining ∷ []) after
          (All-append (Known m.sem) before (draining ∷ []) l (tt, tt)) rest.1)

  retired :
      (ts : List Thread) (k : Worker)
      → In k m.running
      → All (Known m.sem) ts
      → Slots m (held m.sem ts)
      → Sound (record { manager = retire k.entry.bay m; threads = ts ++ releasing k.sem ∷ [] })
  retired ts k at known s =
      let mine : k.sem ≡ m.sem = All-In (λ w. w.sem ≡ m.sem) m.running s.owned at in
      let all : All (Known m.sem) (ts ++ releasing k.sem ∷ []) =
        All-append (Known m.sem) ts (releasing k.sem ∷ []) known (omega (arith, mine), tt) in
      let one_more : suc (held m.sem ts) ≡ held m.sem (ts ++ releasing k.sem ∷ []) =
        ground (arith, mine, held-append m.sem ts (releasing k.sem ∷ [])) in
      elim (retire-Turnover k m (held m.sem ts) at s) [
        | inl (e, slots) ↦ kept m _ _ e (subst (Slots (retire k.entry.bay m)) one_more slots) all
        | inr (e, slots) ↦ replaced m _ _ e slots all
      ]

stage_call :
    (stage : Stage) (o : Checked) (k : Worker) (w : World)
    → In k w.manager.running
    → Sound w
    → Sound (record {
      manager = (work_at stage o k w.manager).0;
      threads = w.threads ++ (work_at stage o k w.manager).1;
    })
stage_call unstarted o k w at s =
    Calm-call w.manager w.threads _ s.known (work_at-Calm unstarted o k w.manager _ s.slots tt)
stage_call testing o k w at s =
    Calm-call w.manager w.threads _ s.known (work_at-Calm testing o k w.manager _ s.slots tt)
stage_call proceeding o k w at s =
    Calm-call w.manager w.threads _ s.known (work_at-Calm proceeding o k w.manager _ s.slots tt)
stage_call (reporting u) o k w at s =
    Calm-call w.manager w.threads _ s.known (work_at-Calm (reporting u) o k w.manager _ s.slots tt)
stage_call finishing o k w at s = unfold work_at in retired w.manager w.threads k at s.known s.slots

-- A thread's section keeps the accounting.
thread_call :
    (before after : List Thread) (t : Thread) (m : Manager)
    → Sound (record { manager = m; threads = before ++ t ∷ after })
    → Sound (record { manager = (advance t m).0; threads = before ++ (advance t m).1 ++ after })
thread_call before after (releasing n) m s =
    unfold advance in released m before after n s.known s.slots
thread_call before after (queueing b t x) m s =
    Calm-thread m before after _ _ tt s.known (advance-Calm m _ s.slots (queueing b t x) tt)
thread_call before after draining m s =
    Calm-thread m before after _ _ tt s.known (advance-Calm m _ s.slots draining tt)
thread_call before after (launching b t) m s =
    Calm-thread m before after _ _ tt s.known (advance-Calm m _ s.slots (launching b t) tt)
thread_call before after (starting b t) m s =
    Calm-thread m before after _ _ tt s.known (advance-Calm m _ s.slots (starting b t) tt)
thread_call before after (signalling b k t) m s =
    Calm-thread m before after _ _ tt s.known (advance-Calm m _ s.slots (signalling b k t) tt)
thread_call before after (cancelling b t) m s =
    Calm-thread m before after _ _ tt s.known (advance-Calm m _ s.slots (cancelling b t) tt)

pub Step-Sound : {w v : World} → Step w v → Sound w → Sound v
Step-Sound {w} (start e free) s =
    Calm-call w.manager w.threads _ s.known (start_check-Calm w.manager _ s.slots e)
Step-Sound {w} (cancel bay free) s =
    Calm-call w.manager w.threads _ s.known (cancel_check-Calm w.manager _ s.slots bay)
Step-Sound {w} (clear bay free) s =
    Calm-call w.manager w.threads _ s.known (clear_state-Calm w.manager _ s.slots bay)
Step-Sound {w} (limit n free) s = elim (set_concurrency-Turnover n w.manager _ s.slots) [
  | inl (e, slots) ↦ kept w.manager _ w.threads e slots s.known
  | inr (e, slots) ↦ replaced w.manager _ w.threads e slots s.known
]
Step-Sound {w} (thread before after t e free) s =
    thread_call before after t w.manager
      (subst (λ ts. Sound (record { manager = w.manager; threads = ts })) e s)
Step-Sound {w} (worker o k at free) s = unfold work in stage_call k.stage o k w at s

pub Reach-Sound : {w v : World} → Reach w v → Sound w → Sound v
Reach-Sound here s = s
Reach-Sound (next r st) s = Step-Sound st (Reach-Sound r s)

initial-Sound : (n : ℕ) → Sound (initial n)
unfolding new_manager
initial-Sound n = record {
  slots = record {
    balance = omega arith;
    owned = tt;
    running_once = tt;
    queued_once = tt;
    apart = tt;
  };
  known = tt;
}

-- Whatever calls, threads and workers run, and in whatever order, from a new manager on: no more
-- workers are registered than the semaphore at hand has permits in all, and those that are not with
-- a worker are free or about to be given back; and no bay is queued twice, has two workers, or is
-- queued while it has a worker.
pub concurrency_bounded :
    (n : ℕ) {v : World}
    → Reach (initial n) v
    → (length v.manager.running ≤ v.manager.capacity)
      × (v.manager.permits v.manager.sem + length v.manager.running + held v.manager.sem v.threads
          ≡ v.manager.capacity)
      × QueuedOnce v.manager.queue
      × RunningOnce v.manager.running
      × Apart v.manager.queue v.manager.running
concurrency_bounded n r =
    let s = (Reach-Sound r (initial-Sound n)).slots in
    (omega (arith, s.balance), s.balance, s.queued_once, s.running_once, s.apart)
