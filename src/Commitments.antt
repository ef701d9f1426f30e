-- ===== src/Commitments.antt =====
-- services/commitments.
pub mod Generator
pub mod ActionWindow
pub mod Rows
pub mod Sync
pub mod Service
pub mod Requests
pub mod Population
pub mod Isolation
pub mod Dues
pub mod Schedule
pub mod Checks
pub mod Restoration
pub mod Settlement
mod Tests
