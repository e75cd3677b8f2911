-- ===== src/Marker.antt =====
-- The marker block that a finished erase leaves at the start of a drive: its JSON text, how it is written
-- (backend/verification.py) and how it is read (backend/disk_utils.py).
pub mod Dumps
pub mod Read
pub mod Write
pub mod Parsed
pub mod RoundTrip
pub mod Marked
mod Samples
