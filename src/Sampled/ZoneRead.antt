-- ===== src/Sampled/ZoneRead.antt =====
-- `_run_cancellable_zone_read` of backend/crypto_verification.py: dd streams a zone, the caller compares
-- the chunks with zeros, and a watcher thread notes a cancellation or the deadline. What the two threads
-- meet is a list of events in the order in which they take the lock or read; killing dd shows in the
-- events that follow.
pub mod Calm
use drive_eraser.Prelude.{
  ℕ, zero, suc, ◌+◌, String, Bool, true, false, not, ◌&&◌, Option, none, some, List, [], ◌∷◌, ◌==◌,
  length, if◌then◌else◌,
}
use drive_eraser.Sampled.Hashes.{zero_bytes}

pub data Event : Type 0 where
  -- `proc.stdout.read(block_size)` returns; no byte means the end
  chunk : List ℕ → Event
  -- it raises
  read_raises : Event
  -- a round of the watcher finds the event set, or the deadline passed
  cancel_seen deadline_seen : Event

pub data Reason : Type 0 where
  cancelled timeout nonzero read_error : Reason

-- The caller is still in its loop, and so is the watcher.
pub record State : Type 0 where
  pub reason : Option Reason
  pub bytes_read : ℕ
  pub chunks_read : ℕ
  pub reading : Bool
  pub watching : Bool

abbrev pub initial : State
initial = record { reason = none; bytes_read = 0; chunks_read = 0; reading = true; watching = true }

-- `bytes[:n]`
unfoldable pub take : ℕ → List ℕ → List ℕ
take zero bs = []
take (suc n) [] = []
take (suc n) (b ∷ bs) = b ∷ take n bs

-- `a == b` of bytes
unfoldable pub bytes_eq : List ℕ → List ℕ → Bool
bytes_eq [] [] = true
bytes_eq [] (b ∷ bs) = false
bytes_eq (a ∷ as') [] = false
bytes_eq (a ∷ as') (b ∷ bs) = a == b && bytes_eq as' bs

unfoldable pub is_zero : (block_size : ℕ) → List ℕ → Bool
is_zero block_size bytes =
    if length bytes == block_size
    then bytes_eq bytes (zero_bytes block_size)
    else bytes_eq bytes (take (length bytes) (zero_bytes block_size))

-- `if kill_reason[0] is None: kill_reason[0] = reason`
unfoldable pub first_reason : Reason → Option Reason → Option Reason
first_reason r none = some r
first_reason r (some earlier) = some earlier

unfoldable pub on_chunk : ℕ → List ℕ → State → State
on_chunk block_size [] s = record s { reading = false }
on_chunk block_size (b ∷ bs) s =
    let counted = record s {
      bytes_read = s.bytes_read + length (b ∷ bs);
      chunks_read = s.chunks_read + 1;
    } in
    if is_zero block_size (b ∷ bs)
    then counted
    else record counted { reason = first_reason nonzero s.reason; reading = false }

-- The watcher overwrites a reason that is there.
unfoldable pub on_watch : Reason → State → State
on_watch r s = if s.watching then record s { reason = some r; watching = false } else s

unfoldable pub on_event : ℕ → Event → State → State
on_event block_size (chunk bytes) s = if s.reading then on_chunk block_size bytes s else s
on_event block_size read_raises s =
    if s.reading then record s { reason = first_reason read_error s.reason; reading = false } else s
on_event block_size cancel_seen s = on_watch cancelled s
on_event block_size deadline_seen s = on_watch timeout s

unfoldable pub after : ℕ → List Event → State → State
after block_size [] s = s
after block_size (e ∷ es) s = after block_size es (on_event block_size e s)

-- How dd fares: it cannot be started, or it is, with the exit status that is known at the end, if it is;
-- or the call raises otherwise.
pub data Stream : Type 0 where
  not_started : Stream
  streamed : (events : List Event) → (return_code : Option ℕ) → Stream
  broke : (message : String) → Stream

pub data ZoneResult : Type 0 where
  zone_read : (found_nonzero : Bool) → (bytes_read chunks_read : ℕ) → ZoneResult
  zone_failed : (error : String) → ZoneResult
  zone_raised : (message : String) → ZoneResult

unfoldable pub is_zero_exit : Option ℕ → Bool
is_zero_exit none = false
is_zero_exit (some code) = code == 0

unfoldable pub by_reason : Option ℕ → (bytes_read chunks_read : ℕ) → Option Reason → ZoneResult
by_reason code n k (some cancelled) = zone_failed "cancelled"
by_reason code n k (some timeout) = zone_failed "timeout"
by_reason code n k (some nonzero) = zone_read true n k
by_reason code n k (some read_error) = zone_failed "zero_check_read_error"
by_reason code n k none =
    if n == 0
    then zone_failed "drive_disappeared_or_empty_read"
    else if not (is_zero_exit code)
    then zone_failed "zero_check_read_failed"
    else zone_read false n k

unfoldable pub run_cancellable_zone_read : (block_size : ℕ) → Stream → ZoneResult
run_cancellable_zone_read block_size not_started = zone_failed "zero_check_read_failed"
run_cancellable_zone_read block_size (broke message) = zone_raised message
run_cancellable_zone_read block_size (streamed events code) =
    let s = after block_size events initial in by_reason code s.bytes_read s.chunks_read s.reason
