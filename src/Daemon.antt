-- ===== src/Daemon.antt =====
-- The server's process for a device (ublkhelper.c): its pid file, its device, its threads.
pub mod PidFile
pub mod Setup
pub mod Start
