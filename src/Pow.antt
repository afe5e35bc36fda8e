-- ===== src/Pow.antt =====
-- internal/pow and internal/handler/pow.go: challenges, solutions, issued keys and their limits.
pub mod Bits
pub mod Counter
pub mod Challenge
pub mod Difficulty
pub mod Store
pub mod Service
pub mod Issue
pub mod Limits
pub mod Redeem
pub mod Solver
pub mod Examples
mod SolverExamples
