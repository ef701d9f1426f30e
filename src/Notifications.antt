-- ===== src/Notifications.antt =====
-- services/notifications.
pub mod ReminderWindow
pub mod Journal
pub mod Run
pub mod Dispatch
pub mod Digest
pub mod Samples
mod Tests
