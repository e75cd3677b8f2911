-- ===== src/ZeroCheck/Samples.antt =====
-- A check that is asked for, and what the theorems on the manager say of it.
use drive_eraser.Prelude.{◌≡◌, ◌≤◌, ◌+◌, refl, some, [], ◌∷◌, ◌++◌, length, arith}
use drive_eraser.Device.{validate_device_path}
use drive_eraser.Device.Path.{valid_codes, has_dots, matches, segments, in_segment, is_path_char}
use drive_eraser.ZeroCheck.Manager.{Entry, assign, queue_has, running_has, queued, completed}
use drive_eraser.ZeroCheck.Sections.{
  enqueue, next_generation, take_next, take_from, take_head, launch, acquire, set_status_if_current,
  set_status, begin_cancel,
}
use drive_eraser.ZeroCheck.Threads.{
  World, initial, new_manager, start_check, advance, after_enqueue, after_take, draining, queueing,
  launching, Reach, here, next, start, thread, takes_lock, cancel_check, clear_state,
}
use drive_eraser.ZeroCheck.Distinct.{QueuedOnce, RunningOnce, Apart}
use drive_eraser.ZeroCheck.Slots.Worlds.{held, concurrency_bounded}
use drive_eraser.ZeroCheck.Generations.{cancelled_check_is_silent, cleared_check_is_silent}
use drive_eraser.ZeroCheck.Deadlock.{Frozen, repeated_start_deadlocks}

abbrev sda : Entry
sda = record { bay = "bay1"; device = "/dev/sda"; serial = some "S1" }

program : Unit {0}
unfolding validate_device_path valid_codes has_dots matches segments in_segment is_path_char assign
    queue_has running_has enqueue next_generation take_next take_from take_head launch acquire
    set_status_if_current set_status begin_cancel new_manager start_check advance after_enqueue
    after_take takes_lock
program = tt

abbrev asked : World
asked = record {
  manager = (start_check sda (initial 2).manager).0;
  threads = [] ++ (start_check sda (initial 2).manager).1;
}

asked_reached : Reach (initial 2) asked
unfolding program
asked_reached = next here (start sda refl)

abbrev marked : World
marked = record {
  manager =
      set_status_if_current "bay1" 1 (λ s. record s { phase = queued; serial = some "S1" })
        asked.manager;
  threads = [] ++ (draining ∷ []) ++ [];
}

marked_reached : Reach (initial 2) marked
unfolding program
marked_reached = next asked_reached (thread [] [] (queueing "bay1" 1 (some "S1")) refl refl)

abbrev registered : World
registered = record {
  manager = (take_next marked.manager).0;
  threads = [] ++ (launching "bay1" 1 ∷ []) ++ [];
}

registered_reached : Reach (initial 2) registered
unfolding program
registered_reached = next marked_reached (thread [] [] draining refl refl)

concurrency_bounded_example :
    (length registered.manager.running ≤ registered.manager.capacity)
    × (registered.manager.permits registered.manager.sem
          + length registered.manager.running
          + held registered.manager.sem registered.threads
        ≡ registered.manager.capacity)
    × QueuedOnce registered.manager.queue
    × RunningOnce registered.manager.running
    × Apart registered.manager.queue registered.manager.running
concurrency_bounded_example = concurrency_bounded 2 registered_reached

abbrev calling_off : World
calling_off = record {
  manager = (cancel_check "bay1" registered.manager).0;
  threads = registered.threads ++ (cancel_check "bay1" registered.manager).1;
}

cancel_found : (begin_cancel "bay1" registered.manager).1 ≡ some 2
unfolding program
cancel_found = refl

cancelled_check_is_silent_example :
    set_status_if_current "bay1" 1 (λ s. record s { phase = completed }) calling_off.manager
    ≡ calling_off.manager
cancelled_check_is_silent_example =
    cancelled_check_is_silent "bay1" registered 1 2 (λ s. record s { phase = completed })
      (unfold program in omega arith) cancel_found here

cleared_check_is_silent_example :
    set_status_if_current "bay1" 1
      (λ s. record s { phase = completed })
      (clear_state "bay1" registered.manager).0
    ≡ (clear_state "bay1" registered.manager).0
cleared_check_is_silent_example =
    cleared_check_is_silent "bay1" registered 1 (λ s. record s { phase = completed })
      (unfold program in omega arith) here

repeated_start_deadlocks_example : Frozen registered.manager (start_check sda registered.manager).0
repeated_start_deadlocks_example =
    repeated_start_deadlocks sda registered (unfold program in refl) (unfold program in refl) here
