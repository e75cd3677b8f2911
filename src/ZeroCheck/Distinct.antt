-- ===== src/ZeroCheck/Distinct.antt =====
-- A bay is queued or checked at most once.
use drive_eraser.Prelude.{
  suc, String, ◌≡◌, ◌≢◌, refl, true, false, List, [], ◌∷◌, ◌++◌, arith, eq_iff, str_eq, All, In,
  here, there, length, Bool-cases, inl, inr, sym, ap, ◌∙◌,
}
use drive_eraser.ZeroCheck.Manager.{
  Entry, Worker, queue_has, running_has, drop_queued, drop_running, map_worker,
}

-- No bay stands twice in the queue.
abbrev pub QueuedOnce : List Entry → Type 0
QueuedOnce [] = Unit
QueuedOnce (e ∷ es) = (queue_has e.bay es ≡ false) × QueuedOnce es

-- No bay has two workers.
abbrev pub RunningOnce : List Worker → Type 0
RunningOnce [] = Unit
RunningOnce (w ∷ ws) = (running_has w.entry.bay ws ≡ false) × RunningOnce ws

-- No queued bay has a worker.
abbrev pub Apart : List Entry → List Worker → Type 0
Apart es ws = All (λ e. running_has e.bay ws ≡ false) es

queue_has-append :
    (bay : String) (es : List Entry) (e : Entry)
    → queue_has bay es ≡ false
    → e.bay ≢ bay
    → queue_has bay (es ++ e ∷ []) ≡ false
unfolding queue_has
queue_has-append bay [] e h n = ground (arith, eq_iff e.bay bay)
queue_has-append bay (x ∷ es) e h n = ground (arith, queue_has-append bay es e)

queue_has-ne :
    (bay : String) (x : Entry) (es : List Entry)
    → queue_has bay (x ∷ es) ≡ false
    → (x.bay ≢ bay) × (queue_has bay es ≡ false)
unfolding queue_has
queue_has-ne bay x es h = ground (arith, eq_iff x.bay bay)

pub QueuedOnce-append :
    (es : List Entry) (e : Entry)
    → QueuedOnce es
    → queue_has e.bay es ≡ false
    → QueuedOnce (es ++ e ∷ [])
QueuedOnce-append [] e o h = (unfold queue_has in refl, tt)
QueuedOnce-append (x ∷ es) e o h =
    let (other, rest) = queue_has-ne e.bay x es h in
    (queue_has-append x.bay es e o.0 (λ p. other (sym p)), QueuedOnce-append es e o.1 rest)

queue_has-drop :
    (bay b : String) (es : List Entry)
    → queue_has bay es ≡ false
    → queue_has bay (drop_queued b es) ≡ false
unfolding queue_has drop_queued
queue_has-drop bay b [] h = h
queue_has-drop bay b (e ∷ es) h = ground (arith, queue_has-drop bay b es)

pub QueuedOnce-drop : (b : String) (es : List Entry) → QueuedOnce es → QueuedOnce (drop_queued b es)
unfolding drop_queued
QueuedOnce-drop b [] o = tt
QueuedOnce-drop b (e ∷ es) o = elim (Bool-cases (str_eq e.bay b)) [
  | inl gone ↦ rw gone (QueuedOnce-drop b es o.1)
  | inr kept ↦ rw kept (queue_has-drop e.bay b es o.0, QueuedOnce-drop b es o.1)
]

pub Apart-drop_queued :
    (b : String) (es : List Entry) (ws : List Worker) → Apart es ws → Apart (drop_queued b es) ws
unfolding drop_queued
Apart-drop_queued b [] ws a = tt
Apart-drop_queued b (e ∷ es) ws a = elim (Bool-cases (str_eq e.bay b)) [
  | inl gone ↦ rw gone (Apart-drop_queued b es ws a.1)
  | inr kept ↦ rw kept (a.0, Apart-drop_queued b es ws a.1)
]

pub Apart-append :
    (es : List Entry) (e : Entry) (ws : List Worker)
    → Apart es ws
    → running_has e.bay ws ≡ false
    → Apart (es ++ e ∷ []) ws
Apart-append [] e ws a h = (h, tt)
Apart-append (x ∷ es) e ws a h = (a.0, Apart-append es e ws a.1 h)

running_has-drop :
    (bay b : String) (ws : List Worker)
    → running_has bay ws ≡ false
    → running_has bay (drop_running b ws) ≡ false
unfolding running_has drop_running
running_has-drop bay b [] h = h
running_has-drop bay b (w ∷ ws) h = ground (arith, running_has-drop bay b ws)

pub RunningOnce-drop :
    (b : String) (ws : List Worker) → RunningOnce ws → RunningOnce (drop_running b ws)
unfolding drop_running
RunningOnce-drop b [] o = tt
RunningOnce-drop b (w ∷ ws) o = elim (Bool-cases (str_eq w.entry.bay b)) [
  | inl gone ↦ rw gone (RunningOnce-drop b ws o.1)
  | inr kept ↦ rw kept (running_has-drop w.entry.bay b ws o.0, RunningOnce-drop b ws o.1)
]

pub Apart-drop_running :
    (b : String) (es : List Entry) (ws : List Worker) → Apart es ws → Apart es (drop_running b ws)
Apart-drop_running b [] ws a = tt
Apart-drop_running b (e ∷ es) ws a =
    (running_has-drop e.bay b ws a.0, Apart-drop_running b es ws a.1)

drop_running-none :
    (b : String) (ws : List Worker) → running_has b ws ≡ false → drop_running b ws ≡ ws
unfolding running_has drop_running
drop_running-none b [] h = refl
drop_running-none b (w ∷ ws) h = ground (arith, drop_running-none b ws)

In-running_has : (k : Worker) (ws : List Worker) → In k ws → running_has k.entry.bay ws ≡ true
unfolding running_has
In-running_has k [] at = elim at [ ]
In-running_has k (w ∷ ws) here = ground (arith, eq_iff w.entry.bay w.entry.bay)
In-running_has k (w ∷ ws) (there at) = ground (arith, In-running_has k ws at)

-- Where no bay has two workers, retiring a worker takes away one.
pub length-drop_running :
    (k : Worker) (ws : List Worker)
    → RunningOnce ws
    → In k ws
    → suc (length (drop_running k.entry.bay ws)) ≡ length ws
unfolding drop_running
length-drop_running k [] o at = elim at [ ]
length-drop_running k (w ∷ ws) o here =
    ground (arith, drop_running-none w.entry.bay ws o.0, eq_iff w.entry.bay w.entry.bay)
length-drop_running k (w ∷ ws) o (there at) = elim (Bool-cases (str_eq w.entry.bay k.entry.bay)) [
  | inl same ↦ cc (
    In-running_has k ws at,
    ap (λ b. running_has b ws) ((eq_iff w.entry.bay k.entry.bay).0 same),
    o.0,
  )
  | inr other ↦ rw other (ap suc (length-drop_running k ws o.1 at))
]

-- A change that keeps the bay of each worker.
module _ (b : String) (f : Worker → Worker)
    (same : (w : Worker) → (f w).entry.bay ≡ w.entry.bay) where
  pub running_has-map_worker :
      (bay : String) (ws : List Worker) → running_has bay (map_worker b f ws) ≡ running_has bay ws
  unfolding running_has map_worker
  running_has-map_worker bay [] = refl
  running_has-map_worker bay (w ∷ ws) =
      ground (arith, running_has-map_worker bay ws, ap (λ x. str_eq x bay) (same w))

  pub RunningOnce-map_worker : (ws : List Worker) → RunningOnce ws → RunningOnce (map_worker b f ws)
  unfolding map_worker
  RunningOnce-map_worker [] o = tt
  RunningOnce-map_worker (w ∷ ws) o = elim (Bool-cases (str_eq w.entry.bay b)) [
    | inl hit ↦
        rw (hit, same w, running_has-map_worker w.entry.bay ws) (o.0, RunningOnce-map_worker ws o.1)
    | inr miss ↦
        rw (miss, running_has-map_worker w.entry.bay ws) (o.0, RunningOnce-map_worker ws o.1)
  ]

  pub Apart-map_worker :
      (es : List Entry) (ws : List Worker) → Apart es ws → Apart es (map_worker b f ws)
  Apart-map_worker [] ws a = tt
  Apart-map_worker (e ∷ es) ws a =
      (running_has-map_worker e.bay ws ∙ a.0, Apart-map_worker es ws a.1)

  pub length-map_worker : (ws : List Worker) → length (map_worker b f ws) ≡ length ws
  unfolding map_worker
  length-map_worker [] = refl
  length-map_worker (w ∷ ws) = ground (arith, length-map_worker ws)
