-- ===== src/Tests.antt =====
-- Runs on small inputs, and each theorem that has hypotheses at a concrete input.
mod Coverage
mod Cycles
mod Format
mod Analyzer
mod Monitors
mod Calls
mod Capture
mod Bootstrap
mod Outputs
mod Client
mod Samples
mod Graph
mod FourCard
mod RingReport
mod Launch
