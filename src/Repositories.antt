-- ===== src/Repositories.antt =====
-- repositories: the queries, as functions on the tables.
pub mod Commitments
pub mod Occurrences
pub mod Reminders
pub mod Subscriptions
pub mod RefreshTokens
pub mod Attempts
pub mod Users
pub mod Digests
