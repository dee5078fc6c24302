-- ===== src/Usb.antt =====
-- The bulk pipes under a mux task: src/usb/bulk_io.rs, src/libusbk/io.rs and src/apple_mux/io.rs.
pub mod Poll
pub mod BulkWriter
pub mod WriterTask
pub mod Boundaries
pub mod Chunks
pub mod Flushes
pub mod Deliveries
pub mod BulkReader
pub mod PipeReader
pub mod Stream
pub mod Readers
pub mod BulkStream
pub mod PipeWriter
pub mod Messages
