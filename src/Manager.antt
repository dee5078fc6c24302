-- ===== src/Manager.antt =====
-- src/manager.rs: the task that owns the table of devices and answers the other tasks' requests.
pub mod State
pub mod Handle
pub mod Safety
pub mod Passing
pub mod Total
pub mod Views
pub mod Told
