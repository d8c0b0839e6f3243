-- ===== src/Signal.antt =====
-- sigc++/signal_base.{h,cc}, sigc++/signal.h and the slots that a signal holds.
pub mod Slot
pub mod Nodes
pub mod Impl
pub mod Extension
pub mod Walk
pub mod Loop
pub mod Settle
pub mod Invariant
pub mod Steps
pub mod Disconnect
pub mod Clear
pub mod Emit
pub mod Acts
pub mod Turns
pub mod Erase
pub mod Emission
pub mod Scope
pub mod Sweep
pub mod Nested
pub mod Guarantee
pub mod Rest
pub mod EmitLast
pub mod Accumulate
pub mod Ranges
pub mod Among
pub mod Located
pub mod Accumulated
pub mod AccumulatedEmission
pub mod Buffered
pub mod Throw
pub mod Thrown
pub mod ThrownEmission
pub mod ThrownPassive
mod ThrowTests
mod OverflowTests
mod AccumulateTests
pub mod LastState
pub mod Connect
pub mod Move
pub mod Passive
pub mod Growing
pub mod Connecting
pub mod Tests
pub mod Abstract
pub mod View
pub mod Refinement
pub mod Assign
pub mod Assigned
pub mod AssignedMove
mod AssignTests
