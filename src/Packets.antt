-- ===== src/Packets.antt =====
-- app/packets.py: the binary protocol of the client, little endian, in frames of an id, a length and
-- a payload.
pub mod Integers
pub mod Utf8
pub mod Structs
pub mod Ids
pub mod Frames
pub mod Server
pub mod Reader
pub mod Writer
pub mod RoundTrip
