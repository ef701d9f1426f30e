-- ===== src/Schemas.antt =====
-- models/schemas: what the requests carry.
pub mod Commitments
