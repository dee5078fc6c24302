-- ===== src/Daemon.antt =====
-- src/daemon/mod.rs, src/daemon/nusb_backend.rs and src/mdns.rs: how a device comes to the manager, over USB and over the network.
pub mod Udid
pub mod Usb
pub mod Mdns
pub mod Registered
pub mod Resolved
pub mod Announced
pub mod Target
pub mod Hotplug
pub mod Enrolled
pub mod Unplugged
pub mod Counts
pub mod Balance
