-- ===== src/Sampled.antt =====
-- backend/crypto_verification.py: the checks that read samples of a drive.
pub mod Retry
pub mod Offsets
pub mod Station
pub mod Zeros
pub mod Hashes
pub mod Probe
pub mod ZoneRead
pub mod Detection
mod Samples
