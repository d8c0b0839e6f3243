-- ===== src/Handle.antt =====
-- signal_base (sigc++/signal_base.{h,cc}): signal objects that share implementations.
pub mod Store
pub mod Counting
pub mod Owned
pub mod Keeps
pub mod Calls
pub mod References
pub mod Lifetime
pub mod Sharing
mod Tests
