-- ===== src/Opengpg.antt =====
-- Unlocking OpenPGP keys: backend/src/opengpg.
pub mod Session
pub mod Unlock
