-- ===== src/Service.antt =====
-- src/main.rs and src/upstream.rs: the sessions of clients, between the manager and an upstream muxer.
pub mod Frames
pub mod Packets
pub mod Host
pub mod Upstream
pub mod Session
pub mod Records
pub mod Requests
pub mod Stream
pub mod Answers
pub mod Connects
pub mod Held
pub mod Killed
pub mod Tunnels
pub mod Numbering
pub mod OwnNumbers
pub mod Routing
pub mod Reached
pub mod Listing
pub mod Pump
pub mod Backoff
pub mod Listen
pub mod Relayed
