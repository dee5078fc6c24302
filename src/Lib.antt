-- ===== src/Lib.antt =====
-- netmuxd shares iOS devices over the usbmuxd protocol, whether they hang on USB or are found on
-- the network. This library models the parts that carry its logic.
--
-- The program. A mux task (src/usb/mux.rs) drives each USB device: over one pair of bulk pipes it
-- runs a TCP-like protocol, on which every `connect` of a client opens a virtual connection. The
-- pipes come from one of three backends (src/usb/bulk_io.rs, src/libusbk/io.rs,
-- src/apple_mux/io.rs). The manager task (src/manager.rs) keeps the table of devices
-- (src/devices.rs), numbers them, tells listeners of what comes and goes, and hands out the mux
-- handles. The socket handlers of src/main.rs and src/passthrough.rs send it their requests, as
-- do the discovery of src/daemon and src/mdns.rs and the watchdogs of src/heartbeat.rs.
--
-- The files. Base holds lists, dictionaries, results and big-endian numbers.
-- Mux models src/usb/mux.rs: Mux/Wire the header and `send_raw`, Mux/Frames `read_frame`,
-- `parse_header` and `parse_tcp`, Mux/Connection `send_tcp` and `flush_pending`, Mux/Incoming
-- `handle_incoming` and `teardown`, Mux/Loop the `select!` of `run`, and Mux/Handshake what `run`
-- does before it. The other files of Mux are proofs.
-- Devices models src/devices.rs, with the property list of a device in Devices/Plist and its
-- socket address in Devices/Sockaddr.
-- Usb models the pipes. Usb/BulkWriter and Usb/BulkReader are those of src/usb/bulk_io.rs, poll
-- by poll, Usb/PipeWriter and Usb/PipeReader those of src/libusbk/io.rs and src/apple_mux/io.rs,
-- and Usb/WriterTask is the task of src/usb/mux.rs that writes the frames of a mux task.
-- Usb/Stream says what a reader is; the other files of Usb are proofs.
-- Config models src/config.rs as built for a Unix system; Config/Shim is about what it returns.
-- Manager models src/manager.rs: Manager/State its tables and Manager/Handle its requests. The
-- other files of Manager are proofs.
-- Service models the sessions of src/main.rs and src/upstream.rs. Service/Frames has the two
-- readers of packets, Service/Host what a session calls that is not its own code, Service/Session
-- its state, Service/Upstream the forwarding of requests, Service/Records and Service/Requests
-- what `handle_stream` does with a packet, Service/Stream its loop, Service/Listen `run_listen`,
-- and Service/Pump `upstream_listen_pump`. The other files of Service are proofs.
-- Heartbeat models src/heartbeat.rs, in Heartbeat/Task.
-- Pairing models src/pairing_file.rs: Pairing/Identity `get_host_identity`, Pairing/Finder the
-- index.
-- Daemon models src/daemon/mod.rs, in Daemon/Udid and Daemon/Usb, src/daemon/nusb_backend.rs, in
-- Daemon/Target and Daemon/Hotplug, and src/mdns.rs, in Daemon/Mdns; the other files of Daemon
-- are proofs.
-- Apple models src/usb/apple.rs: Apple/Descriptors the candidates, Apple/Open the attempts.
--
-- The state. A task's locals are a record, and a step takes it to the next one. A channel that
-- the task writes to is a list that grows, oldest first, with a Boolean for whether its receiver
-- is still there. What a task waits for is an event, and an interleaving of the tasks is a list
-- of events in any order. A oneshot is named by a number, and an answer is an entry of a list. A
-- hash map is an association list: the order in which Rust goes through it is unspecified, and
-- the list stands for one such order. Machine integers are natural numbers with their wrap-around
-- written out; bytes are natural numbers.
--
-- Loops. The loop of `flush_pending` has as much fuel as there are bytes that wait, since each
-- round takes one at least. The reader task has as much fuel as there are bytes in the stream,
-- and the loop of `handle_stream` one turn more, since each frame and each packet takes a byte at
-- least. A reader's rounds take an outcome each, a flush of the bulk writer goes round twice at
-- most, and the loop over the arguments has as much fuel as there are arguments.
--
-- Parameters. What the USB libraries and the operating system do with a transfer is a list of
-- outcomes, any list. The parsers of ports and addresses, the default of the upstream address,
-- and whether a pairing record can be read are fields of the records Platform and Environment.
-- The packets of the crate idevice are the record Codec, and what happens while a request is
-- handled is the record World: the upstream muxer, the storage, the devices, the client, and the
-- requests of others that the manager handles meanwhile. The crate plist and the tags of Bonjour
-- are the records PlistCrate and FinderCrates. What lockdown, the heartbeat service and a USB
-- device answer are outcomes, any at all.
--
-- Not modelled: logging, the listening sockets and the signals of src/main.rs, TLS, the contents
-- of pairing records, src/passthrough.rs, which only copies streams, the USB backends of
-- src/daemon for Windows, the USB and mDNS libraries, the Windows driver installation and the
-- foreign function interfaces. The time that a client spends between a read of its stream and the
-- pump of a connection shows only in the order of the events.
pub mod Base
pub mod Mux
pub mod Devices
pub mod Manager
pub mod Usb
pub mod Config
pub mod Service
pub mod Heartbeat
pub mod Pairing
pub mod Daemon
pub mod Apple
mod Tests
