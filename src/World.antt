-- ===== src/World.antt =====
-- A signal with the trackable objects and the connections that its slots have to do with.
pub mod State
pub mod Registry
pub mod Watchers
pub mod Slots
pub mod Invalidate
pub mod Entries
pub mod Step
pub mod Notify
pub mod Destroyed
pub mod Silence
pub mod Emitting
pub mod Silenced
pub mod Connections
pub mod Scoped
pub mod Program
pub mod Spec
pub mod Shown
pub mod Consistent
pub mod Connect
pub mod Clear
pub mod Pointed
pub mod Runs
pub mod Tests
