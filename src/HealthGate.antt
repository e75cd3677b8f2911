-- ===== src/HealthGate.antt =====
-- The health gate before an erase: backend/smart_health_gate.py with the score and the recommendation of
-- backend/smart_health.py, and the hours of self tests.
pub mod DevicePath
pub mod Score
pub mod Gate
pub mod Conditions
pub mod Cleared
pub mod Refused
pub mod LogHours
mod Samples
