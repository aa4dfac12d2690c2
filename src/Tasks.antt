-- ===== src/Tasks.antt =====
-- The life of a Task: src/services/log_service.rs and the completion records that
-- src/services/calendar_interaction.rs reads back.
pub mod Record
pub mod Action
pub mod Reopen
pub mod Effects
pub mod Lifecycle
pub mod Once
pub mod Guards
