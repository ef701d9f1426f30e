-- ===== src/Jobs.antt =====
-- jobs.
pub mod Daily
