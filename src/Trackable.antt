-- ===== src/Trackable.antt =====
-- sigc++/trackable.{h,cc}.
pub mod Callbacks
pub mod Kept
pub mod Clearing
pub mod Object
pub mod Removal
pub mod Tests
