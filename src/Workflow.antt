-- ===== src/Workflow.antt =====
-- packages/attack_runtime/src/rulearena_attack_runtime/workflow.py: attack runs and their store.
pub mod Models
pub mod Store
pub mod Records
pub mod Call
pub mod Change
pub mod Invariant
pub mod Lifecycle
pub mod Idempotence
mod Tests
