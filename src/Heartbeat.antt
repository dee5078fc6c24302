-- ===== src/Heartbeat.antt =====
-- src/heartbeat.rs: the task that keeps a network device in the table for as long as it answers.
pub mod Task
pub mod Course
pub mod Lifetime
