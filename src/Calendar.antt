-- ===== src/Calendar.antt =====
-- The Calendar side of the orchestrator: the events UbU wants, the operations that project them,
-- the application of an approved batch, and the reconciliation with what the calendar holds.
pub mod Event
pub mod Diff
pub mod Reconcile
pub mod Reconciliation
pub mod Capture
pub mod Apply
pub mod Interaction
pub mod Intake
pub mod Desired
pub mod Preview
pub mod Gestures
pub mod Admission
pub mod History
