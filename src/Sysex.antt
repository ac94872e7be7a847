-- ===== src/Sysex.antt =====
-- System Exclusive handling of the lab scripts under scripts/lab.
pub mod Frame
pub mod Assembler
pub mod Wait
pub mod Synthetic
pub mod Diff
