-- ===== src/Loadgen.antt =====
-- harness/internal/loadgen: the allocation of virtual users (Pool), the rows of k6 folded into seconds
-- (Stream, and in Seconds what is kept of each row), and its report at the end (Summary).
pub mod Pool
pub mod Stream
pub mod Seconds
pub mod Summary
pub mod K6
mod Examples
