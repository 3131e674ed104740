-- ===== src/Ctl.antt =====
-- internal/fs/ctl: the control file, its commands and their log.
pub mod Log
pub mod Words
pub mod Selection
pub mod Exec
