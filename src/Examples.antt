-- ===== src/Examples.antt =====
-- The theorems at concrete data, by the part of the program that they are about.
mod Labels
mod Calendars
mod Approvals
mod Reconciliations
mod Previews
mod Gestures
mod Histories
mod Plans
mod Actions
