-- ===== src/Simulator.antt =====
-- packages/reference_simulator: the pure rule model.
pub mod Models
pub mod Argument
pub mod Arithmetic
pub mod Rules
pub mod Ordering
pub mod Payment
pub mod Benefits
pub mod Transition
pub mod Fixtures
mod Tests
pub mod Effect
pub mod Valid
pub mod Reach
pub mod Conservation
pub mod Replay
pub mod Crash
