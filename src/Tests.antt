-- ===== src/Tests.antt =====
-- Concrete machines, devices and queues, and the theorems at them.
mod Machine
mod Devices
mod Words
mod Commands
mod Rounds
mod Startup
mod Drivers
mod Control
mod Parameters
mod Daemons
mod Lives
mod Targets
mod Sessions
mod Lifecycle
