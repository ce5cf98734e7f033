-- ===== src/Tests.antt =====
-- Runs of the model on concrete inputs: a fixed-point instance of the floats, and one example for
-- each theorem with hypotheses.
pub mod Fixed
pub mod Market
pub mod Orders
pub mod Rules
pub mod Research
pub mod Settings
pub mod Records
pub mod Lifecycle
pub mod Tables
pub mod Runs
pub mod Simulation
pub mod Curves
pub mod Windows
pub mod Weekly
pub mod Failed
pub mod Twice
