-- ===== src/Overview.antt =====
-- web/src/features/overview: the start screen over all clients.
pub mod Types
pub mod Demo
pub mod Wire
pub mod Build
pub mod Screen
pub mod Page
pub mod Api
mod Tests
