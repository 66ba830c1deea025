-- ===== src/Queue.antt =====
-- One io queue of a device (ublkhelper.c): its slots, the commands it submits to the driver, the
-- completions it handles.
pub mod Flags
pub mod Types
pub mod IoCmd
pub mod Request
pub mod Cqe
pub mod Process
pub mod Ends
pub mod Invariant
pub mod Init
pub mod Protocol
pub mod Private
pub mod Thread
pub mod Workers
