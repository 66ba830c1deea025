-- ===== src/Target.antt =====
-- The target: the Go code that answers the requests of a device (c_bridge.go, ublk.go, types.go).
pub mod Types
pub mod Handler
pub mod Bridge
pub mod Shutdown
pub mod Device
pub mod Session
pub mod Startup
