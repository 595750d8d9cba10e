-- ===== src/Team.antt =====
-- web/src/features/team: the staff of the panel and their roles.
pub mod Types
pub mod Demo
pub mod Wire
pub mod Store
pub mod Api
mod Tests
pub mod Screen
pub mod Listing
pub mod Page
