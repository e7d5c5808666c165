-- ===== src/Ipc.antt =====
-- The link between the web process and the capture process (sniff4hound/ipc.py): length-prefixed
-- frames on a stream socket, and the client that keeps one connection alive for many calls.
pub mod Frames
pub mod Receive
pub mod RoundTrip
pub mod Client
pub mod Server
pub mod Examples
