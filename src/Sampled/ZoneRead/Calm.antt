-- ===== src/Sampled/ZoneRead/Calm.antt =====
-- When a zone counts as zeros.
use drive_eraser.Prelude.{
  ℕ, zero, suc, ◌+◌, ◌<◌, ◌≤◌, ◌≡◌, ◌↔◌, refl, inl, inr, Bool, true, false, not, Option, none, some,
  List, [], ◌∷◌, ◌==◌, arith, length, Bool-cases, is_some, ◌≢◌,
}
use drive_eraser.Sampled.Hashes.{zero_bytes}
use drive_eraser.Sampled.Zeros.Clean.{Zeros}
use drive_eraser.Sampled.ZoneRead.{
  Event, chunk, read_raises, cancel_seen, deadline_seen, Reason, cancelled, timeout, nonzero,
  read_error, State, initial, take, bytes_eq, is_zero, first_reason, on_chunk, on_watch, on_event,
  after, streamed, ZoneResult, zone_read, zone_failed, zone_raised, is_zero_exit, by_reason,
  run_cancellable_zone_read,
}

bytes_eq-Zeros :
    (n size : ℕ) (bs : List ℕ)
    → bytes_eq bs (take n (zero_bytes size)) ≡ true
    → Zeros bs × (length bs ≤ size)
unfolding bytes_eq take zero_bytes
bytes_eq-Zeros n size [] h = (tt, omega arith)
bytes_eq-Zeros zero size (b ∷ bs) h = cc h
bytes_eq-Zeros (suc n) zero (b ∷ bs) h = cc h
bytes_eq-Zeros (suc n) (suc size) (b ∷ bs) h =
    let (rest, short) = bytes_eq-Zeros n size bs (ground arith) in
    ((ground arith, rest), omega arith)

Zeros-bytes_eq :
    (size : ℕ) (bs : List ℕ)
    → Zeros bs
    → length bs ≤ size
    → bytes_eq bs (take (length bs) (zero_bytes size)) ≡ true
unfolding bytes_eq take zero_bytes
Zeros-bytes_eq size [] z l = refl
Zeros-bytes_eq zero (b ∷ bs) z l = absurd (omega arith)
Zeros-bytes_eq (suc size) (b ∷ bs) z l = ground (arith, Zeros-bytes_eq size bs z.1)

take_all : (n : ℕ) → take n (zero_bytes n) ≡ zero_bytes n
unfolding take zero_bytes
take_all zero = refl
take_all (suc n) = rw (take_all n) refl

-- The comparison is with zeros of the length of the chunk, which is at most the block size.
is_zero-eq :
    (block : ℕ) (bs : List ℕ) → is_zero block bs ≡ bytes_eq bs (take (length bs) (zero_bytes block))
unfolding is_zero
is_zero-eq block bs = elim (Bool-cases (length bs == block)) [
  | inl full ↦
      let size : length bs ≡ block = ground arith in
      let whole : take (length bs) (zero_bytes block) ≡ zero_bytes block =
        rw size (take_all block) in
      rw (full, whole) refl
  | inr part ↦ rw part refl
]

is_zero_iff :
    (block : ℕ) (bs : List ℕ) → (is_zero block bs ≡ true) ↔ (Zeros bs × (length bs ≤ block))
is_zero_iff block bs = (
  λ h. bytes_eq-Zeros (length bs) block bs (rw (is_zero-eq block bs) at h),
  λ z. rw (is_zero-eq block bs) (Zeros-bytes_eq block bs z.0 z.1),
)

-- The watcher finds neither a cancellation nor the deadline.
abbrev pub NoWatch : List Event → Type 0
NoWatch [] = Unit
NoWatch (chunk bs ∷ es) = NoWatch es
NoWatch (read_raises ∷ es) = NoWatch es
NoWatch (cancel_seen ∷ es) = ⊥
NoWatch (deadline_seen ∷ es) = ⊥

-- Up to the end of the stream each chunk is zeros, of at most the block size, and no read raises; the
-- watcher finds nothing, to the last.
abbrev pub Calm : ℕ → List Event → Type 0
Calm block [] = Unit
Calm block (chunk [] ∷ es) = NoWatch es
Calm block (chunk (b ∷ bs) ∷ es) = (Zeros (b ∷ bs) × (length (b ∷ bs) ≤ block)) × Calm block es
Calm block (read_raises ∷ es) = ⊥
Calm block (cancel_seen ∷ es) = ⊥
Calm block (deadline_seen ∷ es) = ⊥

-- the bytes up to the end of the stream
abbrev pub received : List Event → ℕ
received [] = 0
received (chunk [] ∷ es) = 0
received (chunk (b ∷ bs) ∷ es) = length (b ∷ bs) + received es
received (read_raises ∷ es) = 0
received (cancel_seen ∷ es) = received es
received (deadline_seen ∷ es) = received es

abbrev going : ℕ → ℕ → State
going n k = record {
  reason = none;
  bytes_read = n;
  chunks_read = k;
  reading = true;
  watching = true;
}

abbrev ended : ℕ → ℕ → State
ended n k = record {
  reason = none;
  bytes_read = n;
  chunks_read = k;
  reading = false;
  watching = true;
}

on_event-some :
    (block : ℕ) (e : Event) (s : State)
    → is_some s.reason ≡ true
    → is_some (on_event block e s).reason ≡ true
unfolding on_event on_chunk on_watch first_reason
on_event-some block (chunk []) s h = ground arith
on_event-some block (chunk (b ∷ bs)) s h = ground arith
on_event-some block read_raises s h = ground arith
on_event-some block cancel_seen s h = ground arith
on_event-some block deadline_seen s h = ground arith

after-some :
    (block : ℕ) (es : List Event) (s : State)
    → is_some s.reason ≡ true
    → (after block es s).reason ≢ none
unfolding after
after-some block [] s h = λ e. cc (e, h)
after-some block (e ∷ es) s h = after-some block es (on_event block e s) (on_event-some block e s h)

ended_iff :
    (block n k : ℕ) (es : List Event) → ((after block es (ended n k)).reason ≡ none) ↔ NoWatch es
unfolding after on_event on_watch
ended_iff block n k [] = (λ h. tt, λ c. refl)
ended_iff block n k (chunk bs ∷ es) = ended_iff block n k es
ended_iff block n k (read_raises ∷ es) = ended_iff block n k es
ended_iff block n k (cancel_seen ∷ es) = (λ h. after-some block es _ refl h, λ c. absurd c)
ended_iff block n k (deadline_seen ∷ es) = (λ h. after-some block es _ refl h, λ c. absurd c)

ended_bytes :
    (block n k : ℕ) (es : List Event) → NoWatch es → (after block es (ended n k)).bytes_read ≡ n
unfolding after on_event on_watch
ended_bytes block n k [] c = refl
ended_bytes block n k (chunk bs ∷ es) c = ended_bytes block n k es c
ended_bytes block n k (read_raises ∷ es) c = ended_bytes block n k es c
ended_bytes block n k (cancel_seen ∷ es) c = absurd c
ended_bytes block n k (deadline_seen ∷ es) c = absurd c

going_iff :
    (block n k : ℕ) (es : List Event) → ((after block es (going n k)).reason ≡ none) ↔ Calm block es
unfolding after on_event on_watch on_chunk first_reason
going_iff block n k [] = (λ h. tt, λ c. refl)
going_iff block n k (chunk [] ∷ es) = ended_iff block n k es
going_iff block n k (chunk (b ∷ bs) ∷ es) = elim (Bool-cases (is_zero block (b ∷ bs))) [
  | inl zeros ↦
      let next = going_iff block (n + length (b ∷ bs)) (k + 1) es in
      (
        λ h. (
          (is_zero_iff block (b ∷ bs)).0 zeros,
          next.0 (rw (zeros, after, on_event, on_chunk) at h),
        ),
        λ c. rw (zeros, after, on_event, on_chunk) (next.1 c.1),
      )
  | inr found ↦ (
    λ h. absurd (after-some block es _ refl (rw (found, after, on_event, on_chunk) at h)),
    λ c. absurd (let zeros = (is_zero_iff block (b ∷ bs)).1 c.0 in cc (zeros, found)),
  )
]
going_iff block n k (read_raises ∷ es) = (λ h. after-some block es _ refl h, λ c. absurd c)
going_iff block n k (cancel_seen ∷ es) = (λ h. after-some block es _ refl h, λ c. absurd c)
going_iff block n k (deadline_seen ∷ es) = (λ h. after-some block es _ refl h, λ c. absurd c)

going_bytes :
    (block n k : ℕ) (es : List Event)
    → Calm block es
    → (after block es (going n k)).bytes_read ≡ n + received es
unfolding after on_event on_watch on_chunk
going_bytes block n k [] c = omega arith
going_bytes block n k (chunk [] ∷ es) c = omega (arith, ended_bytes block n k es c)
going_bytes block n k (chunk (b ∷ bs) ∷ es) c =
    let zeros = (is_zero_iff block (b ∷ bs)).1 c.0 in
    let next = going_bytes block (n + length (b ∷ bs)) (k + 1) es c.1 in
    rw (zeros, after, on_event, on_chunk) (omega (arith, next))
going_bytes block n k (read_raises ∷ es) c = absurd c
going_bytes block n k (cancel_seen ∷ es) c = absurd c
going_bytes block n k (deadline_seen ∷ es) c = absurd c

-- The zone was read to its end as zeros.
abbrev pub is_clean : ZoneResult → Bool
is_clean (zone_read found_nonzero n k) = not found_nonzero
is_clean (zone_failed error) = false
is_clean (zone_raised message) = false

clean_exit :
    (code : Option ℕ) (n k : ℕ) (reason : Option Reason)
    → (is_clean (by_reason code n k reason) ≡ true) ↔ ((reason ≡ none) × (code ≡ some 0) × (0 < n))
unfolding by_reason is_zero_exit
clean_exit code n k (some cancelled) = (λ c. cc c, λ e. cc e.0)
clean_exit code n k (some timeout) = (λ c. cc c, λ e. cc e.0)
clean_exit code n k (some nonzero) = (λ c. cc c, λ e. cc e.0)
clean_exit code n k (some read_error) = (λ c. cc c, λ e. cc e.0)
clean_exit none n k none = (λ c. ground arith, λ e. cc e.1)
clean_exit (some code) n k none = (λ c. (refl, ground arith, ground arith), λ e. ground arith)

-- A zone counts as zeros exactly when dd was started and ended with status 0, the watcher found neither
-- a cancellation nor the deadline, no read raised, and the chunks up to the end of the stream, each of
-- at most the block size, are zeros, with one byte or more in all.
pub run_cancellable_zone_read_iff :
    (block : ℕ) (events : List Event) (code : Option ℕ)
    → (is_clean (run_cancellable_zone_read block (streamed events code)) ≡ true)
      ↔ (Calm block events × (code ≡ some 0) × (0 < received events))
unfolding run_cancellable_zone_read
run_cancellable_zone_read_iff block events code =
    let s = after block events initial in
    let exit = clean_exit code s.bytes_read s.chunks_read s.reason in
    (
      λ h.
          let (silent, status, some_bytes) = exit.0 h in
          let calm = (going_iff block 0 0 events).0 silent in
          (calm, status, omega (arith, going_bytes block 0 0 events calm)),
      λ c. exit.1 (
        (going_iff block 0 0 events).1 c.0,
        c.1,
        omega (arith, going_bytes block 0 0 events c.0),
      ),
    )
