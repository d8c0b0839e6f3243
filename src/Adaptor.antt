-- ===== src/Adaptor.antt =====
-- sigc++/adaptors: functors made of other functors.
pub mod Functors
pub mod Visitors
pub mod Arguments
pub mod Visits
pub mod Members
pub mod Tests
