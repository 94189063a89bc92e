-- ===== src/Analyzer.antt =====
-- flightrecorder/analyzer.py: the evidence report, `analyze`, over the cycle search of `Cycles`.
pub mod Select
pub mod Scan
pub mod Progress
pub mod Dependencies
pub mod Ranks
pub mod Collectives
pub mod Report
