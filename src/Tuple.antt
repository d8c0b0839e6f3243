-- ===== src/Tuple.antt =====
-- sigc++/tuple-utils.
pub mod Utils
pub mod Laws
pub mod Transform
pub mod Tests
