-- ===== src/Quality.antt =====
-- The quality gate of scripts/quality/lint-touched.py.
pub mod Paths
pub mod Lines
pub mod Limits
pub mod Hunks
pub mod Findings
pub mod Gate
