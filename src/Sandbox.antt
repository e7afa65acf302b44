-- ===== src/Sandbox.antt =====
-- services/commerce_sandbox: the service that replays act on, with the defects that a run exhibits.
pub mod Profile
pub mod Models
pub mod Values
pub mod Rows
pub mod Orders
pub mod Payments
pub mod Memberships
pub mod Snapshot
pub mod Printed
pub mod Execute
pub mod Runs
pub mod App
pub mod Valid
pub mod Kept
pub mod Step
pub mod Reach
pub mod Retry
pub mod Receipts
pub mod Commit
pub mod Restart
pub mod Ledger
pub mod Gate
pub mod Axes
pub mod Tests
pub mod SnapshotTests
pub mod LedgerTests
