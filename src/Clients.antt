-- ===== src/Clients.antt =====
-- web/src/features/clients: the clients of the panel, their store, screens and API.
pub mod Types
pub mod Wire
pub mod Store
pub mod Api
pub mod Keys
pub mod Queries
pub mod Screen
pub mod Form
pub mod Card
pub mod Demo
pub mod Access
pub mod Tabs
pub mod Table
pub mod Created
pub mod Journey
mod Tests
