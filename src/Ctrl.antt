-- ===== src/Ctrl.antt =====
-- The control commands of a device (ublkhelper.c): how one is encoded, sent and waited for.
pub mod Types
pub mod Ops
pub mod Cmd
pub mod Send
pub mod Info
pub mod Add
pub mod Delete
pub mod Start
pub mod Params
pub mod Affinity
