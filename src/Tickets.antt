-- ===== src/Tickets.antt =====
-- web/src/features/tickets: support tickets of all clients.
pub mod Types
pub mod Demo
pub mod Wire
pub mod Api
mod Tests
pub mod Screen
pub mod Listing
pub mod Page
