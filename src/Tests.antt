-- ===== src/Tests.antt =====
-- The theorems at concrete inputs: captures of ports, diffs and files of the kind that the scripts
-- under scripts/lab and scripts/quality meet.
mod Sysex
mod Ports
mod Quality
mod Labs
mod Clock
mod Loops
mod Scenarios
mod Release
mod Title
mod Concurrent
mod Bridge
mod Stress
mod Sessions
mod Publish
