-- ===== src/Apple.antt =====
-- src/usb/apple.rs: how the mux interface of a device is found and opened.
pub mod Descriptors
pub mod Open
pub mod Attempts
pub mod Budget
