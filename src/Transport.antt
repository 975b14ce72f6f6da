-- ===== src/Transport.antt =====
-- transport.rs: the streams of a connection between two nodes. Frames: frames and stream types;
-- Handshake: the order of its messages; Challenge: what both sides sign; Glare: two connections
-- between the same nodes.
pub mod Frames
pub mod Handshake
pub mod Challenge
pub mod Session
pub mod Glare
