-- ===== src/Lib.antt =====
-- The lab and quality scripts of the Unitor MT4 driver, modelled from their Python sources.
--
-- The labs under scripts/lab send MIDI through a device or a loopback cable and judge what comes
-- back; the drivers beside them run the labs for hours, with the bridge program as a child. The gate
-- scripts/quality/lint-touched.py judges the files that a change touches, and
-- scripts/packaging/prepare-release.py packs and verifies a release.
--
-- Midi         mido's messages as the scripts read them, a recording of polls, hexadecimal dumps
--              (hex_bytes of lab_midi_common.py, frame_head_tail of sysex_matrix_mid_loop_lib.py)
-- Sysex        Frame: frame and fixture checks, requests, send_sysex. Assembler: SysexAssembler.
--              Wait: wait_matched_sysex. Diff: first_diff_offset and wait_exact_sysex of
--              sysex_long_loopback_lib.py. Synthetic: build_synthetic_sysex
-- Ports        normalize_port_label, port_match_rank, select_port, find_port of lab_midi_common.py
-- Lab          the line that the loopback labs share, and the counting of what arrives; Session: the
--              bridge, the ports, the scan of its output and the exit status of mtc-loopback-lab.py
--              and midi-clock-loopback-lab.py
-- Mtc, Clock   mtc-loopback-lab.py and midi-clock-loopback-lab.py over Lab
-- Inquiry      the inquiry loop of device-inquiry-loop.py, over Sysex.Frame; Session: its bridge, its
--              ports, its child process and its exit status, over Bridge and Ports
-- Loopback     the trials of sysex-long-loopback.py, over wait_exact_sysex
-- Scenario     the push and dump scenarios of sysex_matrix_mid_loop_lib.py and the bank burst of
--              sysex_matrix_bank_loop_lib.py, over wait_matched_sysex
-- Options      what the SysEx labs read of a command line, and what they refuse
-- Stress       the drivers that run the labs as children until a deadline. Stress: the shared loop,
--              from overnight-combined-stress.py. Combined, Macos, Matrix and LongLoop: the four
--              overnight scripts. Longevity: wms-session-longevity-stress.py; Monitor: what ends it.
--              Accepted: the drivers' options over the checks of Options
-- Sessions     the fresh sessions of sysex-matrix-mid-loop.py, sysex-matrix-bank-loop.py and, in
--              Long, sysex-long-loopback.py. Matrix: the children's options. Single: one session and
--              the choice of the mode, over Scenario and Loopback. Long/Plan and Long/Wall: the
--              sizes, the payloads and the wall budget of sysex_long_loopback_lib.py
-- Bridge       BridgeSession, start_one_clean_wms_bridge, bridge_fail_lines and, in Listing, the
--              enumeration of ports of lab_midi_common.py, over Ports
-- Repro        wms-midisrv-restart-repro.py, over Bridge
-- Concurrent   midi-concurrent-in-stress.py: two listening threads as steps on shared counters
-- Title        scripts/dev/resolve-bmad-chat-title.py
-- Quality      lint-touched.py: Paths and Limits (which files, which limits), Lines (useful lines,
--              nesting), Hunks (the lines that a diff touches), Findings (one file), Gate (the run)
-- Release      packing, checksums and verification of scripts/packaging/prepare-release.py; Publish:
--              its publish and publish-ci
-- Base         Boolean tests, lists, texts as code points, decimals, sorting, products with binary64
--              fractions
-- Tests        the theorems at concrete inputs
--
-- Time and input: a waiting loop runs over a recording, a list of polls, each with the clock at the
-- test of the loop, the messages then pending and the clock at a return. Clocks count whole
-- milliseconds. A recording that ends before its loop gives `none`; the theorems ask instead that
-- some poll comes at or after the deadline, and then prove that the loop returns. The labs of Mtc
-- and Clock run over a recording of what each later poll yields. Where a child process or a thread
-- acts, the recording says how each child ends, what each poll finds, or in which order the threads
-- take their messages. A journal holds the lines inside the loop of a driver.
--
-- Fuel: the draining of a reassembly buffer has one round more than the bytes in it, since each round
-- takes a frame off; the search of a free title has one more than the numbers taken, since each round
-- but the last meets another of them. Two helpers have fuel too: `decimal` n + 1 rounds, more than the
-- digits of n, and `bit_length` 128, enough for the products of numbers below 2 ^ 53.
--
-- Numbers are natural numbers; percentages are whole. `int(limit * 1.4)` and `int(n * 0.98)` are
-- computed as in binary64. Texts are lists of code points; lower and isdigit are those of ASCII.
--
-- From outside: git's output, the file system and lizard are the records `GitOutput` and
-- `Repository` of the gate, clang-tidy is an exit status, and whether mido or a port raises on
-- a send is part of the recording. A release directory is a list of names and contents, and the
-- SHA-256 digest is a parameter; what git and gh answer, and which of their commands fail, is the
-- record `World` of Release/Publish.
--
-- Not modelled: the C++ bridge under src, the status and reset of the service midisrv, the reader
-- thread of the bridge, the other packaging scripts, printing, the paths of logs, the options that
-- no check reads, and the BMAD library under .agents and _bmad, which is another project's.
pub mod Base
pub mod Midi
pub mod Sysex
pub mod Ports
pub mod Lab
pub mod Mtc
pub mod Clock
pub mod Inquiry
pub mod Loopback
pub mod Scenario
pub mod Quality
pub mod Release
pub mod Title
pub mod Bridge
pub mod Repro
pub mod Options
pub mod Stress
pub mod Sessions
pub mod Concurrent
mod Tests
