-- ===== src/Mux.antt =====
-- src/usb/mux.rs: the TCP emulation that carries many connections over one bulk pipe.
pub mod Wire
pub mod Frames
pub mod Connection
pub mod Incoming
pub mod Loop
pub mod Handshake
pub mod Framing
pub mod Steps
pub mod Rounds
pub mod Sent
pub mod Startup
pub mod Flow
pub mod Answers
pub mod Ledger
pub mod Tally
pub mod Replies
pub mod Once
