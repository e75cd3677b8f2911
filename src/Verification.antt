-- ===== src/Verification.antt =====
-- backend/verification.py: was the drive erased?
pub mod Report
pub mod Nvme
pub mod Sata
pub mod SataErase
pub mod Sas
pub mod Overwrite
pub mod Dispatch
mod Samples
