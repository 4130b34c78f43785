-- ===== src/Stats.antt =====
-- harness/internal/stats: summaries of repetitions, the comparison of two arms, the detection of a
-- steady window, and the reading of a capacity ramp.
pub mod Describe
pub mod Compare
pub mod Steady
pub mod Knee
pub mod Ramp
mod Examples
