-- ===== src/Backup.antt =====
-- core/src/backup: metadata and file names of backups, their creation, setup and restore.
pub mod FileName
pub mod Create
pub mod Setup
pub mod Latest
pub mod Restore
