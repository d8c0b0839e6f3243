-- ===== src/Network.antt =====
-- Several signals whose functors use and emit one another (sigc++/signal.h: signal_emit and make_slot).
pub mod Emit
pub mod Moved
pub mod Acts
pub mod Rounds
pub mod Emission
mod Tests
