-- ===== src/Backup.antt =====
-- Backup archives: backend/src/backup.
pub mod Mbox
pub mod Upload
