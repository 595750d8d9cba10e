-- ===== src/Settings.antt =====
-- web/src/features/settings: plans and the message template.
pub mod Types
pub mod Wire
pub mod Store
pub mod Api
pub mod Screen
pub mod Page
pub mod Journey
mod Tests
