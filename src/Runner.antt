-- ===== src/Runner.antt =====
-- harness/internal/campaign: the one procedure that runs a cell, and what it makes of what was measured.
-- Clock estimates how far two clocks are apart, Windowing chooses the window of a cell and, with
-- Numbers, fills in its numbers, Gathered hands them to the gates, Requests says what load and which
-- environment are asked for, Calibration chooses a rate, and Procedure is the order of the effects.
pub mod Clock
pub mod Offsets
pub mod Windowing
pub mod Numbers
pub mod Filled
pub mod Gathered
pub mod Requests
pub mod Calibration
pub mod RampTime
pub mod Environment
pub mod Admitted
pub mod Procedure
pub mod Orderly
mod Examples
