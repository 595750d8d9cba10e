-- ===== src/Journal.antt =====
-- web/src/features/journal: the journal of the team's actions.
pub mod Types
pub mod Demo
pub mod Wire
pub mod Api
mod Tests
pub mod Screen
pub mod Listing
pub mod Page
