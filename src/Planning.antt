-- ===== src/Planning.antt =====
-- src/services/planning_service.rs, without its reads of the store: the windows that a Task may
-- take, the merging and checking of a plan's steps, and the segments of a container.
pub mod Window
pub mod Steps
pub mod Segments
pub mod Seats
pub mod Collisions
