-- ===== src/Outputs.antt =====
-- `write_outputs` of flightrecorder/analyzer.py: what it writes, before the encoding as JSON. A text is
-- given by its lines.
pub mod Shown
pub mod Lines
pub mod Full
pub mod Written
pub mod Command
