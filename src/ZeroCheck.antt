-- ===== src/ZeroCheck.antt =====
-- backend/zero_check_manager.py: background checks whether an inserted drive holds only zeros.
-- `Manager` is the state of a `ZeroCheckManager`, `Sections` has one function for each section of
-- the code that runs under the manager's lock, and `Threads` the threads that run these sections
-- one after the other, in any interleaving.
pub mod Manager
pub mod Sections
pub mod Threads
pub mod Slots
pub mod Distinct
pub mod Generations
pub mod Deadlock
mod Samples
