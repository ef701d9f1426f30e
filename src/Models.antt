-- ===== src/Models.antt =====
-- The tables of models/db.
pub mod Columns
pub mod Commitments
pub mod Users
